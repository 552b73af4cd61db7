-- ===== src/Base/Map.antt =====
-- `BTreeMap<String, V>`: an association list in the order of its keys.
use mathlib.Core.Path.{◌≡◌, refl}
use mathlib.Core.Bool.{Bool, true, false}
use mathlib.Core.Option.{Option, none, some}
use mathlib.Core.List.{List, [], ◌∷◌}
use native.Mathlib.Omega.{arith}
use voidnet.Base.Tests.{if◌then◌else◌}
use voidnet.Base.Texts.{
  Text, text_eq, text_lt, text_eq_iff, text_eq_refl, text_lt_irrefl, text_lt_trans, text_lt_total,
}

abbrev pub Map {ℓ} : Type ℓ → Type ℓ
Map V = List (Text × V)

abbrev pub or_default {ℓ} : {V : Type ℓ} → V → Option V → V
or_default d none = d
or_default d (some v) = v

module _ {ℓ} {V : Type ℓ} where
  unfoldable pub get : Text → Map V → Option V
  get k [] = none
  get k ((j, v) ∷ m) = if text_eq j k then some v else get k m

  unfoldable pub insert : Text → V → Map V → Map V
  insert k v [] = (k, v) ∷ []
  insert k v ((j, w) ∷ m) =
      if text_eq j k
      then (k, v) ∷ m
      else if text_lt k j
      then (k, v) ∷ (j, w) ∷ m
      else (j, w) ∷ insert k v m

  unfoldable pub remove : Text → Map V → Map V
  remove k [] = []
  remove k ((j, w) ∷ m) = let rest = remove k m in if text_eq j k then rest else (j, w) ∷ rest

  abbrev pub contains_key : Text → Map V → Bool
  contains_key k m = elim (get k m) [ none ↦ false | some _ ↦ true ]

  -- `retain`, with a test of the value
  unfoldable pub retain : (V → Bool) → Map V → Map V
  retain p [] = []
  retain p ((j, w) ∷ m) = let rest = retain p m in if p w then (j, w) ∷ rest else rest

  unfoldable pub values : Map V → List V
  values [] = []
  values ((j, w) ∷ m) = w ∷ values m

  -- `for v in m.values_mut() { *v = f(v) }`
  unfoldable pub map_values : (V → V) → Map V → Map V
  map_values f [] = []
  map_values f ((j, w) ∷ m) = (j, f w) ∷ map_values f m

  -- `entry(k).or_insert_with(|| d)`, and then a change `f` of the entry
  abbrev pub upsert : Text → V → (V → V) → Map V → Map V
  upsert k d f m = insert k (f (or_default d (get k m))) m

  -- a change `f` of what `get_mut(k)` finds
  unfoldable pub update : Text → (V → V) → Map V → Map V
  update k f [] = []
  update k f ((j, w) ∷ m) = if text_eq j k then (j, f w) ∷ m else (j, w) ∷ update k f m

module _ {ℓ} {V : Type ℓ} where
  pub get-insert :
      (k j : Text) (v : V) (m : Map V)
      → get j (insert k v m) ≡ (if text_eq k j then some v else get j m)
  unfolding get insert
  get-insert k j v [] = refl
  get-insert k j v ((i, w) ∷ m) =
      ground (arith, text_eq_iff k j, text_eq_iff i k, text_eq_iff i j, get-insert k j v m)

  pub insert_twice : (k : Text) (v : V) (m : Map V) → insert k v (insert k v m) ≡ insert k v m
  unfolding insert
  insert_twice k v [] = ground (arith, text_eq_iff k k)
  insert_twice k v ((j, w) ∷ m) = ground (arith, text_eq_iff k k, insert_twice k v m)

  -- a change that does nothing the second time
  pub upsert_twice :
      (k : Text) (d : V) (f : V → V) (m : Map V)
      → ((v : V) → f (f v) ≡ f v)
      → upsert k d f (upsert k d f m) ≡ upsert k d f m
  upsert_twice k d f m h =
      rw (get-insert, text_eq_refl k, h (or_default d (get k m)))
        (insert_twice k (f (or_default d (get k m))) m)

  pub get-remove :
      (k j : Text) (m : Map V) → get j (remove k m) ≡ (if text_eq k j then none else get j m)
  unfolding get remove
  get-remove k j [] = ground arith
  get-remove k j ((i, w) ∷ m) =
      ground (arith, text_eq_iff k j, text_eq_iff i k, text_eq_iff i j, get-remove k j m)

  pub get-map_values :
      (f : V → V) (k : Text) (v : V) (m : Map V)
      → get k m ≡ some v
      → get k (map_values f m) ≡ some (f v)
  unfolding get map_values
  get-map_values f k v [] h = cc
  get-map_values f k v ((i, w) ∷ m) h = ground (arith, get-map_values f k v m)

  abbrev pub map_option : (V → V) → Option V → Option V
  map_option f none = none
  map_option f (some v) = some (f v)

  pub get-update :
      (f : V → V) (k j : Text) (m : Map V)
      → get j (update k f m) ≡ (if text_eq k j then map_option f (get j m) else get j m)
  unfolding get update
  get-update f k j [] = ground arith
  get-update f k j ((i, w) ∷ m) =
      ground (arith, text_eq_iff k j, text_eq_iff i k, text_eq_iff i j, get-update f k j m)

  -- `k` is below every key.
  abbrev pub Below : Text → Map V → Type 0
  Below k [] = Unit
  Below k ((j, w) ∷ m) = (text_lt k j ≡ true) × Below k m

  -- What `BTreeMap` maintains: the keys ascend.
  abbrev pub IsSorted : Map V → Type 0
  IsSorted [] = Unit
  IsSorted ((k, v) ∷ m) = Below k m × IsSorted m

  Below-trans : (k j : Text) (m : Map V) → text_lt k j ≡ true → Below j m → Below k m
  Below-trans k j [] h b = tt
  Below-trans k j ((i, w) ∷ m) h b = (text_lt_trans k j i h b.0, Below-trans k j m h b.1)

  Below-insert :
      (i k : Text) (v : V) (m : Map V) → text_lt i k ≡ true → Below i m → Below i (insert k v m)
  unfolding insert
  Below-insert i k v [] h b = (h, tt)
  Below-insert i k v ((j, w) ∷ m) h b = ground (arith, Below-insert i k v m)

  pub insert-IsSorted : (k : Text) (v : V) (m : Map V) → IsSorted m → IsSorted (insert k v m)
  unfolding insert
  insert-IsSorted k v [] h = (tt, tt)
  insert-IsSorted k v ((j, w) ∷ m) h = ground (
    arith,
    text_eq_iff j k,
    insert-IsSorted k v m,
    Below-insert j k v m,
    Below-trans k j m,
    text_lt_total j k,
    text_lt_total k j,
  )

module _ {ℓ} {V : Type ℓ} where
  get-eq_none-Below : (k : Text) (m : Map V) → Below k m → get k m ≡ none
  unfolding get
  get-eq_none-Below k [] b = refl
  get-eq_none-Below k ((j, w) ∷ m) b =
      ground (arith, text_eq_iff j k, text_lt_irrefl k, get-eq_none-Below k m)

  abbrev pub keep_if : (V → Bool) → Option V → Option V
  keep_if p none = none
  keep_if p (some v) = if p v then some v else none

  pub get-retain :
      (p : V → Bool) (k : Text) (m : Map V) → IsSorted m → get k (retain p m) ≡ keep_if p (get k m)
  unfolding get retain
  get-retain p k [] h = refl
  get-retain p k ((j, w) ∷ m) h =
      ground (arith, text_eq_iff j k, get-eq_none-Below j m, get-retain p k m h.1)

  Below-retain : (i : Text) (p : V → Bool) (m : Map V) → Below i m → Below i (retain p m)
  unfolding retain
  Below-retain i p [] b = tt
  Below-retain i p ((j, w) ∷ m) b = ground (arith, Below-retain i p m b.1)

  pub retain-IsSorted : (p : V → Bool) (m : Map V) → IsSorted m → IsSorted (retain p m)
  unfolding retain
  retain-IsSorted p [] h = tt
  retain-IsSorted p ((j, w) ∷ m) h = ground (arith, Below-retain j p m h.0, retain-IsSorted p m h.1)

  Below-remove : (i k : Text) (m : Map V) → Below i m → Below i (remove k m)
  unfolding remove
  Below-remove i k [] b = tt
  Below-remove i k ((j, w) ∷ m) b = ground (arith, Below-remove i k m b.1)

  pub remove-IsSorted : (k : Text) (m : Map V) → IsSorted m → IsSorted (remove k m)
  unfolding remove
  remove-IsSorted k [] h = tt
  remove-IsSorted k ((j, w) ∷ m) h = ground (arith, Below-remove j k m h.0, remove-IsSorted k m h.1)

  Below-map_values : (i : Text) (f : V → V) (m : Map V) → Below i m → Below i (map_values f m)
  unfolding map_values
  Below-map_values i f [] b = tt
  Below-map_values i f ((j, w) ∷ m) b = (b.0, Below-map_values i f m b.1)

  pub map_values-IsSorted : (f : V → V) (m : Map V) → IsSorted m → IsSorted (map_values f m)
  unfolding map_values
  map_values-IsSorted f [] h = tt
  map_values-IsSorted f ((j, w) ∷ m) h = (Below-map_values j f m h.0, map_values-IsSorted f m h.1)

  Below-update : (i k : Text) (f : V → V) (m : Map V) → Below i m → Below i (update k f m)
  unfolding update
  Below-update i k f [] b = tt
  Below-update i k f ((j, w) ∷ m) b = ground (arith, Below-update i k f m b.1)

  pub update-IsSorted : (k : Text) (f : V → V) (m : Map V) → IsSorted m → IsSorted (update k f m)
  unfolding update
  update-IsSorted k f [] h = tt
  update-IsSorted k f ((j, w) ∷ m) h =
      ground (arith, Below-update j k f m h.0, update-IsSorted k f m h.1)
