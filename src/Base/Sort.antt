-- ===== src/Base/Sort.antt =====
-- `Vec<String>::sort` and `dedup`.
use mathlib.Core.List.{List, [], ◌∷◌}
use voidnet.Base.Tests.{if◌then◌else◌}
use voidnet.Base.Texts.{Text, text_eq, text_lt}

unfoldable pub insert_sorted : Text → List Text → List Text
insert_sorted x [] = x ∷ []
insert_sorted x (y ∷ ys) = if text_lt y x then y ∷ insert_sorted x ys else x ∷ y ∷ ys

unfoldable pub sort : List Text → List Text
unfolding insert_sorted
sort [] = []
sort (x ∷ xs) = insert_sorted x (sort xs)

-- consecutive equal items are kept once
unfoldable pub dedup_from : Text → List Text → List Text
dedup_from x [] = x ∷ []
dedup_from x (y ∷ ys) = let rest = dedup_from y ys in if text_eq x y then rest else x ∷ rest

unfoldable pub dedup : List Text → List Text
unfolding dedup_from
dedup [] = []
dedup (x ∷ xs) = dedup_from x xs
