-- ===== src/Base/Keyed.antt =====
-- A `Vec` that is used as a map: items are found by the text that `key` reads from them.
pub mod Find
use mathlib.Core.Path.{◌≡◌, refl, sym, ◌∙◌}
use mathlib.Core.Logic.{inl, inr}
use mathlib.Core.Bool.{Bool, true, false, ◌||◌}
use mathlib.Core.Option.{Option, none, some}
use mathlib.Core.List.{List, [], ◌∷◌, ◌++◌}
use native.Mathlib.Omega.{arith}
use voidnet.Base.Tests.{if◌then◌else◌, Bool-cases}
use voidnet.Base.Lists.{any}
use voidnet.Base.Seqs.{insert_by, sort_by, IsAsymmetric}
use voidnet.Base.Texts.{Text, text_eq, text_lt, text_eq_iff, text_lt_irrefl, text_lt_trans}

module _ {ℓ} {A : Type ℓ} (key : A → Text) where
  abbrev pub has_key : Text → List A → Bool
  has_key k xs = any (λ x. text_eq (key x) k) xs

  -- `iter().find(|x| x.key == k)`
  unfoldable pub find_key : Text → List A → Option A
  find_key k [] = none
  find_key k (x ∷ xs) = if text_eq (key x) k then some x else find_key k xs

  -- a change `f` of what `iter_mut().find(|x| x.key == k)` finds
  unfoldable pub update_key : Text → (A → A) → List A → List A
  update_key k f [] = []
  update_key k f (x ∷ xs) =
      let rest = update_key k f xs in if text_eq (key x) k then f x ∷ xs else x ∷ rest

  -- the change of an item that is found, or else a push of `d`
  unfoldable pub upsert_key : Text → (A → A) → A → List A → List A
  upsert_key k f d xs = if has_key k xs then update_key k f xs else xs ++ d ∷ []

  -- a push of `d` where no item with the key is there
  unfoldable pub push_key : Text → A → List A → List A
  push_key k d xs = if has_key k xs then xs else xs ++ d ∷ []

  -- `a.key.cmp(&b.key)` is less
  abbrev pub key_lt : A → A → Bool
  key_lt x y = text_lt (key x) (key y)

  -- No two items have the same key.
  abbrev pub AreDistinct : List A → Type 0
  AreDistinct [] = Unit
  AreDistinct (x ∷ xs) = (has_key (key x) xs ≡ false) × AreDistinct xs

  -- The change `f` leaves an item with the key `k` that key.
  abbrev pub Keeps : Text → (A → A) → Type ℓ
  Keeps k f = (x : A) → key x ≡ k → key (f x) ≡ k

module _ {ℓ} {A : Type ℓ} (key : A → Text) where
  pub key_lt-IsAsymmetric : IsAsymmetric (key_lt key)
  key_lt-IsAsymmetric x y h =
      ground (arith, text_lt_irrefl (key x), text_lt_trans (key x) (key y) (key x))

  pub has_key-append :
      (k : Text) (xs ys : List A)
      → has_key key k (xs ++ ys) ≡ (has_key key k xs || has_key key k ys)
  has_key-append k [] ys = refl
  has_key-append k (x ∷ xs) ys = ground (arith, has_key-append k xs ys)

  pub has_key-update_key :
      (k j : Text) (f : A → A) (xs : List A)
      → Keeps key k f
      → has_key key j (update_key key k f xs) ≡ has_key key j xs
  unfolding update_key
  has_key-update_key k j f [] keeps = refl
  has_key-update_key k j f (x ∷ xs) keeps =
      ground (arith, text_eq_iff (key x) k, keeps x, has_key-update_key k j f xs keeps)

  pub update_key-AreDistinct :
      (k : Text) (f : A → A) (xs : List A)
      → Keeps key k f
      → AreDistinct key xs
      → AreDistinct key (update_key key k f xs)
  unfolding update_key
  update_key-AreDistinct k f [] keeps h = tt
  update_key-AreDistinct k f (x ∷ xs) keeps (fresh, h) = elim (Bool-cases (text_eq (key x) k)) [
    | inl e ↦ rw e (ground (arith, text_eq_iff (key x) k, keeps x, fresh), h)
    | inr e ↦
        rw e
          (has_key-update_key k (key x) f xs keeps ∙ fresh, update_key-AreDistinct k f xs keeps h)
  ]

  pub push-AreDistinct :
      (d : A) (xs : List A)
      → AreDistinct key xs
      → has_key key (key d) xs ≡ false
      → AreDistinct key (xs ++ d ∷ [])
  push-AreDistinct d [] h free = (refl, tt)
  push-AreDistinct d (x ∷ xs) (fresh, h) free = (
    has_key-append (key x) xs (d ∷ [])
        ∙ ground (arith, text_eq_iff (key x) (key d), text_eq_iff (key d) (key x)),
    push-AreDistinct d xs h ground arith,
  )

  pub push_key-AreDistinct :
      (d : A) (xs : List A) → AreDistinct key xs → AreDistinct key (push_key key (key d) d xs)
  unfolding push_key
  push_key-AreDistinct d xs h = elim (Bool-cases (has_key key (key d) xs)) [
    | inl e ↦ rw e h
    | inr e ↦ rw e (push-AreDistinct d xs h e)
  ]

  pub upsert_key-AreDistinct :
      (k : Text) (f : A → A) (d : A) (xs : List A)
      → Keeps key k f
      → key d ≡ k
      → AreDistinct key xs
      → AreDistinct key (upsert_key key k f d xs)
  unfolding upsert_key
  upsert_key-AreDistinct k f d xs keeps same h = elim (Bool-cases (has_key key k xs)) [
    | inl e ↦ rw e (update_key-AreDistinct k f xs keeps h)
    | inr e ↦ rw e (push-AreDistinct d xs h (rw same e))
  ]

  has_key-insert_by :
      (k : Text) (x : A) (xs : List A)
      → has_key key k (insert_by (key_lt key) x xs) ≡ (text_eq (key x) k || has_key key k xs)
  unfolding insert_by
  has_key-insert_by k x [] = refl
  has_key-insert_by k x (y ∷ xs) = ground (arith, has_key-insert_by k x xs)

  pub has_key-sort_by :
      (k : Text) (xs : List A) → has_key key k (sort_by (key_lt key) xs) ≡ has_key key k xs
  unfolding sort_by
  has_key-sort_by k [] = refl
  has_key-sort_by k (x ∷ xs) =
      ground (arith, has_key-insert_by k x (sort_by (key_lt key) xs), has_key-sort_by k xs)

  insert_by-AreDistinct :
      (x : A) (xs : List A)
      → has_key key (key x) xs ≡ false
      → AreDistinct key xs
      → AreDistinct key (insert_by (key_lt key) x xs)
  unfolding insert_by
  insert_by-AreDistinct x [] free h = (refl, tt)
  insert_by-AreDistinct x (y ∷ xs) free (fresh, h) = ground (
    arith,
    text_eq_iff (key x) (key y),
    text_eq_iff (key y) (key x),
    has_key-insert_by (key y) x xs,
    insert_by-AreDistinct x xs,
  )

  pub sort_by-AreDistinct :
      (xs : List A) → AreDistinct key xs → AreDistinct key (sort_by (key_lt key) xs)
  unfolding sort_by
  sort_by-AreDistinct [] h = tt
  sort_by-AreDistinct (x ∷ xs) (fresh, h) =
      insert_by-AreDistinct x (sort_by (key_lt key) xs) (has_key-sort_by (key x) xs ∙ fresh)
        (sort_by-AreDistinct xs h)
