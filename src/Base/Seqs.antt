-- ===== src/Base/Seqs.antt =====
-- Sequences: counting, keeping the last items, and the stable sort of `sort_by`.
use Prim.Native.Nat.{ℕ, zero, suc, ◌+◌, ◌-◌, ◌≤◌}
use mathlib.Core.Path.{◌≡◌, refl}
use mathlib.Core.Bool.{Bool, true, false}
use mathlib.Core.List.{List, [], ◌∷◌, ◌++◌}
use native.Mathlib.Omega.{arith}
use voidnet.Base.Tests.{if◌then◌else◌}
use voidnet.Base.Lists.{length}

module _ {ℓ} {A : Type ℓ} where
  -- `filter(p).count()`
  unfoldable pub count : (A → Bool) → List A → ℕ
  count p [] = 0
  count p (x ∷ xs) = let rest = count p xs in if p x then suc rest else rest

  unfoldable pub drop : ℕ → List A → List A
  drop zero xs = xs
  drop (suc n) [] = []
  drop (suc n) (x ∷ xs) = drop n xs

  -- the last `n` items: where there are more, the first ones are drained
  unfoldable pub keep_last : ℕ → List A → List A
  keep_last n xs = drop (length xs - n) xs

  unfoldable pub insert_by : (A → A → Bool) → A → List A → List A
  insert_by lt x [] = x ∷ []
  insert_by lt x (y ∷ ys) = let rest = insert_by lt x ys in if lt y x then y ∷ rest else x ∷ y ∷ ys

  -- the stable sort by the order `lt`
  unfoldable pub sort_by : (A → A → Bool) → List A → List A
  unfolding insert_by
  sort_by lt [] = []
  sort_by lt (x ∷ xs) = insert_by lt x (sort_by lt xs)

  -- No item is above the next one.
  abbrev pub IsOrderedBy : (A → A → Bool) → List A → Type 0
  IsOrderedBy lt [] = Unit
  IsOrderedBy lt (x ∷ []) = Unit
  IsOrderedBy lt (x ∷ y ∷ xs) = (lt y x ≡ false) × IsOrderedBy lt (y ∷ xs)

  -- Of two items, at most one is below the other.
  abbrev pub IsAsymmetric : (A → A → Bool) → Type ℓ
  IsAsymmetric lt = (x y : A) → lt x y ≡ true → lt y x ≡ false

module _ {ℓ} {A : Type ℓ} where
  pub length-drop : (n : ℕ) (xs : List A) → length (drop n xs) ≡ length xs - n
  unfolding drop
  length-drop zero xs = omega arith
  length-drop (suc n) [] = omega arith
  length-drop (suc n) (x ∷ xs) = omega (arith, length-drop n xs)

  pub length-keep_last : (n : ℕ) (xs : List A) → length (keep_last n xs) ≤ n
  unfolding keep_last
  length-keep_last n xs = omega (arith, length-drop (length xs - n) xs)

  pub count-append : (p : A → Bool) (xs ys : List A) → count p (xs ++ ys) ≡ count p xs + count p ys
  unfolding count
  count-append p [] ys = omega arith
  count-append p (x ∷ xs) ys = ground (arith, count-append p xs ys)

  count-insert_by :
      (lt : A → A → Bool) (p : A → Bool) (x : A) (xs : List A)
      → count p (insert_by lt x xs) ≡ count p (x ∷ xs)
  unfolding count insert_by
  count-insert_by lt p x [] = refl
  count-insert_by lt p x (y ∷ xs) = ground (arith, count-insert_by lt p x xs)

  pub count-sort_by :
      (lt : A → A → Bool) (p : A → Bool) (xs : List A) → count p (sort_by lt xs) ≡ count p xs
  unfolding count sort_by
  count-sort_by lt p [] = refl
  count-sort_by lt p (x ∷ xs) =
      ground (arith, count-insert_by lt p x (sort_by lt xs), count-sort_by lt p xs)

  insert_by-IsOrderedBy :
      (lt : A → A → Bool) (x : A) (xs : List A)
      → IsAsymmetric lt
      → IsOrderedBy lt xs
      → IsOrderedBy lt (insert_by lt x xs)
  unfolding insert_by
  insert_by-IsOrderedBy lt x [] asym h = tt
  insert_by-IsOrderedBy lt x (y ∷ []) asym h = ground (arith, asym y x)
  insert_by-IsOrderedBy lt x (y ∷ z ∷ xs) asym (below, h) =
      ground (arith, asym y x, insert_by-IsOrderedBy lt x (z ∷ xs) asym h)

  pub sort_by-IsOrderedBy :
      (lt : A → A → Bool) (xs : List A) → IsAsymmetric lt → IsOrderedBy lt (sort_by lt xs)
  unfolding sort_by
  sort_by-IsOrderedBy lt [] asym = tt
  sort_by-IsOrderedBy lt (x ∷ xs) asym =
      insert_by-IsOrderedBy lt x (sort_by lt xs) asym (sort_by-IsOrderedBy lt xs asym)

  drop-IsOrderedBy :
      (lt : A → A → Bool) (n : ℕ) (xs : List A) → IsOrderedBy lt xs → IsOrderedBy lt (drop n xs)
  unfolding drop
  drop-IsOrderedBy lt zero xs h = h
  drop-IsOrderedBy lt (suc n) [] h = tt
  drop-IsOrderedBy lt (suc n) (x ∷ []) h = drop-IsOrderedBy lt n [] tt
  drop-IsOrderedBy lt (suc n) (x ∷ y ∷ xs) (below, h) = drop-IsOrderedBy lt n (y ∷ xs) h

  pub keep_last-IsOrderedBy :
      (lt : A → A → Bool) (n : ℕ) (xs : List A)
      → IsOrderedBy lt xs
      → IsOrderedBy lt (keep_last n xs)
  unfolding keep_last
  keep_last-IsOrderedBy lt n xs h = drop-IsOrderedBy lt (length xs - n) xs h
