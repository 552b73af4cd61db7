-- ===== src/Base/Ascending.antt =====
-- What sorting and removing repetitions leaves of a list.
use mathlib.Core.Path.{◌≡◌, refl, ◌∙◌}
use mathlib.Core.Logic.{inl, inr}
use mathlib.Core.Bool.{Bool, true, false, ◌||◌}
use mathlib.Core.List.{List, [], ◌∷◌}
use native.Mathlib.Omega.{arith}
use voidnet.Base.Tests.{Bool-cases}
use voidnet.Base.Lists.{any}
use voidnet.Base.Sort.{sort, insert_sorted, dedup, dedup_from}
use voidnet.Base.Texts.{
  Text, text_eq, text_lt, text_eq_iff, text_lt_irrefl, text_lt_trans, text_lt_total,
}

-- `a` is one of the texts.
abbrev pub has : Text → List Text → Bool
has a texts = any (text_eq a) texts

-- Every text is below the one after it.
abbrev pub IsAscending : List Text → Type 0
IsAscending [] = Unit
IsAscending (x ∷ []) = Unit
IsAscending (x ∷ y ∷ xs) = (text_lt x y ≡ true) × IsAscending (y ∷ xs)

-- No text is above the one after it.
abbrev IsOrdered : List Text → Type 0
IsOrdered [] = Unit
IsOrdered (x ∷ []) = Unit
IsOrdered (x ∷ y ∷ xs) = (text_lt y x ≡ false) × IsOrdered (y ∷ xs)

has-insert_sorted :
    (a x : Text) (xs : List Text) → has a (insert_sorted x xs) ≡ (text_eq a x || has a xs)
unfolding insert_sorted
has-insert_sorted a x [] = refl
has-insert_sorted a x (y ∷ xs) = ground (arith, has-insert_sorted a x xs)

has-sort : (a : Text) (xs : List Text) → has a (sort xs) ≡ has a xs
unfolding sort
has-sort a [] = refl
has-sort a (x ∷ xs) = ground (arith, has-insert_sorted a x (sort xs), has-sort a xs)

has-dedup_from : (a x : Text) (xs : List Text) → has a (dedup_from x xs) ≡ (text_eq a x || has a xs)
unfolding dedup_from
has-dedup_from a x [] = refl
has-dedup_from a x (y ∷ xs) = ground (arith, has-dedup_from a y xs, text_eq_iff x y)

has-dedup : (a : Text) (xs : List Text) → has a (dedup xs) ≡ has a xs
unfolding dedup
has-dedup a [] = refl
has-dedup a (x ∷ xs) = has-dedup_from a x xs

insert_sorted-IsOrdered :
    (x : Text) (xs : List Text) → IsOrdered xs → IsOrdered (insert_sorted x xs)
unfolding insert_sorted
insert_sorted-IsOrdered x [] h = tt
insert_sorted-IsOrdered x (y ∷ []) h = ground (arith, text_lt_irrefl x, text_lt_trans x y x)
insert_sorted-IsOrdered x (y ∷ z ∷ xs) (below, h) =
    ground (arith, text_lt_irrefl x, text_lt_trans x y x, insert_sorted-IsOrdered x (z ∷ xs) h)

sort-IsOrdered : (xs : List Text) → IsOrdered (sort xs)
unfolding sort
sort-IsOrdered [] = tt
sort-IsOrdered (x ∷ xs) = insert_sorted-IsOrdered x (sort xs) (sort-IsOrdered xs)

-- the first text stays the first
dedup_from-IsAscending :
    (w x : Text) (xs : List Text)
    → text_lt w x ≡ true
    → IsOrdered (x ∷ xs)
    → IsAscending (w ∷ dedup_from x xs)
unfolding dedup_from
dedup_from-IsAscending w x [] below h = (below, tt)
dedup_from-IsAscending w x (y ∷ xs) below (order, h) = elim (Bool-cases (text_eq x y)) [
  | inl e ↦ rw e (dedup_from-IsAscending w y xs ground (arith, text_eq_iff x y) h)
  | inr e ↦
      rw e
        (below, dedup_from-IsAscending x y xs ground (arith, text_eq_iff x y, text_lt_total x y) h)
]

dedup_from-IsAscending_first :
    (x : Text) (xs : List Text) → IsOrdered (x ∷ xs) → IsAscending (dedup_from x xs)
unfolding dedup_from
dedup_from-IsAscending_first x [] h = tt
dedup_from-IsAscending_first x (y ∷ xs) (order, h) = elim (Bool-cases (text_eq x y)) [
  | inl e ↦ rw e (dedup_from-IsAscending_first y xs h)
  | inr e ↦
      rw e (dedup_from-IsAscending x y xs ground (arith, text_eq_iff x y, text_lt_total x y) h)
]

dedup-IsAscending : (xs : List Text) → IsOrdered xs → IsAscending (dedup xs)
unfolding dedup
dedup-IsAscending [] h = tt
dedup-IsAscending (x ∷ xs) h = dedup_from-IsAscending_first x xs h

pub dedup-sort :
    (xs : List Text)
    → IsAscending (dedup (sort xs)) × ((a : Text) → has a (dedup (sort xs)) ≡ has a xs)
dedup-sort xs =
    (dedup-IsAscending (sort xs) (sort-IsOrdered xs), λ a. has-dedup a (sort xs) ∙ has-sort a xs)
