-- ===== src/Transport/Topology/Addresses.antt =====
-- What the lists of addresses hold after a merge, and the reachability that is inferred from them.
use voidnet.Base.{
  ◌≡◌, ◌≤◌, refl, ◌⊎◌, inl, inr, true, false, ◌||◌, Option, none, some, List, [], ◌∷◌, ◌++◌, Text,
  text_eq_iff, arith, Bool-cases, Option-cases, if◌then◌else◌, leb,
}
use voidnet.Base.Ascending.{has, IsAscending, dedup-sort}
use voidnet.Transport.Topology.Records.{dedupe_strings}
use voidnet.Transport.Topology.Kinds.{NetworkReachability}
use voidnet.Transport.Topology.Kinds.NetworkReachability.{unknown}
use voidnet.Transport.Topology.Peers.{merge_addresses}
use voidnet.Transport.Topology.Reachability.{
  Protocol, rank, max_by_rank, parsed, parse_address_reachability, infer_reachability, or_unknown,
}

-- No text stands in the list twice.
abbrev pub IsDistinct : List Text → Type 0
IsDistinct [] = Unit
IsDistinct (a ∷ texts) = (has a texts ≡ false) × IsDistinct texts

has-append : (a : Text) (xs ys : List Text) → has a (xs ++ ys) ≡ (has a xs || has a ys)
has-append a [] ys = refl
has-append a (x ∷ xs) ys = ground (arith, has-append a xs ys)

IsDistinct-append :
    (xs : List Text) (a : Text) → IsDistinct xs → has a xs ≡ false → IsDistinct (xs ++ a ∷ [])
IsDistinct-append [] a h n = (refl, tt)
IsDistinct-append (x ∷ xs) a h n =
    ground (
      arith,
      has-append x xs (a ∷ []),
      text_eq_iff x a,
      text_eq_iff a x,
      IsDistinct-append xs a h.1,
    )

pub has-merge_addresses :
    (a : Text) (existing incoming : List Text)
    → has a (merge_addresses existing incoming) ≡ (has a existing || has a incoming)
unfolding merge_addresses
has-merge_addresses a existing [] = ground arith
has-merge_addresses a existing (x ∷ incoming) = elim (Bool-cases (has x existing)) [
  | inl h ↦ rw h (ground (arith, has-merge_addresses a existing incoming, text_eq_iff a x))
  | inr h ↦ rw h (
      ground (
        arith,
        has-merge_addresses a (existing ++ x ∷ []) incoming,
        has-append a existing (x ∷ []),
      ))
]

merge_addresses-IsDistinct :
    (existing incoming : List Text)
    → IsDistinct existing
    → IsDistinct (merge_addresses existing incoming)
unfolding merge_addresses
merge_addresses-IsDistinct existing [] h = h
merge_addresses-IsDistinct existing (x ∷ incoming) h = elim (Bool-cases (has x existing)) [
  | inl e ↦ rw e (merge_addresses-IsDistinct existing incoming h)
  | inr e ↦
      rw e (
        merge_addresses-IsDistinct (existing ++ x ∷ []) incoming (IsDistinct-append existing x h e))
]

-- A merge into addresses without repetition holds the addresses of both, and none of them twice.
pub merge_addresses_lem :
    (existing incoming : List Text)
    → IsDistinct existing
    → IsDistinct (merge_addresses existing incoming)
      × ((a : Text)
          → has a (merge_addresses existing incoming) ≡ (has a existing || has a incoming))
merge_addresses_lem existing incoming h =
    (merge_addresses-IsDistinct existing incoming h, λ a. has-merge_addresses a existing incoming)

-- The listen addresses and the bootstrap addresses are kept in ascending order, each once, and none
-- is lost or added.
pub dedupe_strings_lem :
    (items : List Text)
    → IsAscending (dedupe_strings items) × ((a : Text) → has a (dedupe_strings items) ≡ has a items)
unfolding dedupe_strings
dedupe_strings_lem items = dedup-sort items

module _ (parse : Text → Option (List Protocol)) where
  -- No address of the list ranks above `r`.
  abbrev pub Bounds : NetworkReachability → List Text → Type 0
  Bounds r addresses =
      (a : Text) (x : NetworkReachability)
      → has a addresses ≡ true
      → parse_address_reachability parse a ≡ some x
      → rank x ≤ rank r

  -- An address of the list has the reachability `r`.
  abbrev pub Attains : NetworkReachability → List Text → Type 0
  Attains r addresses =
      (a : Text) × (has a addresses ≡ true) × (parse_address_reachability parse a ≡ some r)

  -- `o` is the highest reachability of the addresses, none if no address has one.
  abbrev IsHighest : Option NetworkReachability → List Text → Type 0
  IsHighest none addresses =
      (a : Text) → has a addresses ≡ true → parse_address_reachability parse a ≡ none
  IsHighest (some r) addresses = Bounds r addresses × Attains r addresses

  IsHighest-skip :
      (o : Option NetworkReachability) (b : Text) (addresses : List Text)
      → parse_address_reachability parse b ≡ none
      → IsHighest o addresses
      → IsHighest o (b ∷ addresses)
  IsHighest-skip none b addresses e h = λ a m. ground (arith, text_eq_iff a b, h a)
  IsHighest-skip (some r) b addresses e (bounds, (a, m, is)) =
      (λ a x m e'. ground (arith, text_eq_iff a b, bounds a x), (a, ground arith, is))

  -- of two equal ones the later
  abbrev higher : NetworkReachability → Option NetworkReachability → Option NetworkReachability
  higher r none = some r
  higher r (some later) = if leb (rank r) (rank later) then some later else some r

  IsHighest-higher :
      (r : NetworkReachability) (o : Option NetworkReachability) (b : Text) (addresses : List Text)
      → parse_address_reachability parse b ≡ some r
      → IsHighest o addresses
      → IsHighest (higher r o) (b ∷ addresses)
  IsHighest-higher r none b addresses e h =
      (λ a x m e'. ground (arith, text_eq_iff a b, h a), (b, ground (arith, text_eq_iff b b), e))
  IsHighest-higher r (some later) b addresses e (bounds, (a, m, is)) =
      elim (Bool-cases (leb (rank r) (rank later))) [
        | inl h ↦
            rw h ((λ a x m e'. ground (arith, text_eq_iff a b, bounds a x)), (a, ground arith, is))
        | inr h ↦ rw h (
          (λ a x m e'. ground (arith, text_eq_iff a b, bounds a x)),
          (b, ground (arith, text_eq_iff b b), e),
        )
      ]

  max_by_rank-higher :
      (r : NetworkReachability) (rs : List NetworkReachability)
      → max_by_rank (r ∷ rs) ≡ higher r (max_by_rank rs)
  unfolding max_by_rank
  max_by_rank-higher r rs = elim (Option-cases (max_by_rank rs)) [
    | inl h ↦ rw h refl
    | inr (later, h) ↦ rw h refl
  ]

  max_by_rank_nil : max_by_rank [] ≡ none
  unfolding max_by_rank
  max_by_rank_nil = refl

  parsed-IsHighest :
      (addresses : List Text) → IsHighest (max_by_rank (parsed parse addresses)) addresses
  unfolding parsed
  parsed-IsHighest [] = rw max_by_rank_nil λ a m. cc
  parsed-IsHighest (b ∷ addresses) = elim (Option-cases (parse_address_reachability parse b)) [
    | inl h ↦
        rw (parsed, h)
          (IsHighest-skip (max_by_rank (parsed parse addresses)) b addresses h
            (parsed-IsHighest addresses))
    | inr (r, h) ↦
        rw (parsed, h, max_by_rank-higher r (parsed parse addresses))
          (IsHighest-higher r (max_by_rank (parsed parse addresses)) b addresses h
            (parsed-IsHighest addresses))
  ]

  -- What the addresses say together: the highest reachability that one of them has, and `unknown` if
  -- none has any.
  abbrev pub IsInferred : NetworkReachability → List Text → Type 0
  IsInferred r addresses =
      (Bounds r addresses × Attains r addresses)
      ⊎ ((r ≡ unknown)
          × ((a : Text) → has a addresses ≡ true → parse_address_reachability parse a ≡ none))

  or_unknown-IsInferred :
      (o : Option NetworkReachability) (addresses : List Text)
      → IsHighest o addresses
      → IsInferred (or_unknown parse o) addresses
  or_unknown-IsInferred none addresses h = inr (refl, h)
  or_unknown-IsInferred (some r) addresses h = inl h

  -- The inferred reachability is the highest one of an observed or a listen address, `unknown` below
  -- `private` below `public`, and `unknown` if no address has one.
  pub infer_reachability_lem :
      (listen_addresses observed_addresses : List Text)
      → IsInferred
          (infer_reachability parse listen_addresses observed_addresses)
          (observed_addresses ++ listen_addresses)
  unfolding infer_reachability
  infer_reachability_lem listen_addresses observed_addresses =
      or_unknown-IsInferred (max_by_rank (parsed parse (observed_addresses ++ listen_addresses)))
        (observed_addresses ++ listen_addresses)
        (parsed-IsHighest (observed_addresses ++ listen_addresses))
