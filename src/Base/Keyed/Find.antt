-- ===== src/Base/Keyed/Find.antt =====
-- What is found by its key after a change or a sort.
use mathlib.Core.Path.{◌≡◌, refl}
use mathlib.Core.Logic.{inl, inr}
use mathlib.Core.Bool.{true, false}
use mathlib.Core.Option.{none, some}
use mathlib.Core.List.{List, [], ◌∷◌, ◌++◌}
use native.Mathlib.Omega.{arith}
use voidnet.Base.Tests.{if◌then◌else◌, Bool-cases}
use voidnet.Base.Seqs.{insert_by, sort_by}
use voidnet.Base.Texts.{Text, text_eq, text_eq_iff, text_lt_irrefl}
use voidnet.Base.Map.{map_option, or_default}
use voidnet.Base.Keyed.{has_key, find_key, update_key, upsert_key, push_key, key_lt, Keeps}

module _ {ℓ} {A : Type ℓ} (key : A → Text) where
  pub find_key-eq_none :
      (k : Text) (xs : List A) → has_key key k xs ≡ false → find_key key k xs ≡ none
  unfolding find_key
  find_key-eq_none k [] h = refl
  find_key-eq_none k (x ∷ xs) h = ground (arith, find_key-eq_none k xs)

  pub find_key-update_key :
      (k j : Text) (f : A → A) (xs : List A)
      → Keeps key k f
      → find_key key j (update_key key k f xs)
        ≡ (if text_eq k j then map_option f (find_key key j xs) else find_key key j xs)
  unfolding update_key find_key
  find_key-update_key k j f [] keeps = ground arith
  find_key-update_key k j f (x ∷ xs) keeps = ground (
    arith,
    text_eq_iff (key x) k,
    text_eq_iff (key x) j,
    text_eq_iff k j,
    keeps x,
    find_key-update_key k j f xs keeps,
  )

  find_key-push :
      (k j : Text) (d : A) (xs : List A)
      → key d ≡ k
      → has_key key k xs ≡ false
      → find_key key j (xs ++ d ∷ []) ≡ (if text_eq k j then some d else find_key key j xs)
  unfolding find_key
  find_key-push k j d [] same free = ground arith
  find_key-push k j d (x ∷ xs) same free = ground (
    arith,
    text_eq_iff (key x) j,
    text_eq_iff k j,
    text_eq_iff (key x) k,
    find_key-push k j d xs same,
  )

  find_key-has_key :
      (k : Text) (xs : List A) → has_key key k xs ≡ true → (x : A) × (find_key key k xs ≡ some x)
  unfolding find_key
  find_key-has_key k [] h = cc
  find_key-has_key k (x ∷ xs) h = elim (Bool-cases (text_eq (key x) k)) [
    | inl e ↦ rw e (x, refl)
    | inr e ↦ rw e (find_key-has_key k xs ground arith)
  ]

  pub find_key-upsert_key :
      (k j : Text) (f : A → A) (d : A) (xs : List A)
      → Keeps key k f
      → key d ≡ k
      → find_key key j (upsert_key key k f d xs) ≡ (
          if text_eq k j
          then some (or_default d (map_option f (find_key key k xs)))
          else find_key key j xs)
  unfolding upsert_key
  find_key-upsert_key k j f d xs keeps same = elim (Bool-cases (has_key key k xs)) [
    | inl e ↦
        let (x, found) = find_key-has_key k xs e in
        ground (arith, text_eq_iff k j, found, find_key-update_key k j f xs keeps)
    | inr e ↦ ground (arith, e, find_key-eq_none k xs e, find_key-push k j d xs same e)
  ]

  pub find_key-push_key :
      (k j : Text) (d : A) (xs : List A)
      → key d ≡ k
      → find_key key j (push_key key k d xs)
        ≡ (if text_eq k j then some (or_default d (find_key key k xs)) else find_key key j xs)
  unfolding push_key
  find_key-push_key k j d xs same = elim (Bool-cases (has_key key k xs)) [
    | inl e ↦ let (x, found) = find_key-has_key k xs e in ground (arith, text_eq_iff k j, found)
    | inr e ↦ ground (arith, e, find_key-eq_none k xs e, find_key-push k j d xs same e)
  ]

  find_key-insert_by :
      (k : Text) (x : A) (xs : List A)
      → find_key key k (insert_by (key_lt key) x xs)
        ≡ (if text_eq (key x) k then some x else find_key key k xs)
  unfolding find_key insert_by
  find_key-insert_by k x [] = refl
  find_key-insert_by k x (y ∷ xs) = ground (
    arith,
    text_eq_iff (key x) k,
    text_eq_iff (key y) k,
    text_lt_irrefl k,
    find_key-insert_by k x xs,
  )

  pub find_key-sort_by :
      (k : Text) (xs : List A) → find_key key k (sort_by (key_lt key) xs) ≡ find_key key k xs
  unfolding find_key sort_by
  find_key-sort_by k [] = refl
  find_key-sort_by k (x ∷ xs) =
      ground (arith, find_key-insert_by k x (sort_by (key_lt key) xs), find_key-sort_by k xs)
