-- ===== src/Runtime/Decisions.antt =====
-- What a negotiation of capabilities decides (`negotiate_capabilities` in core/runtime/src/lib.rs).
use mathlib.Core.Option
use voidnet.Base.{
  ℕ, ◌≡◌, refl, ap, ◌∙◌, Bool, true, false, ◌&&◌, ◌||◌, not, none, some, List, [], ◌∷◌, Text,
  text_eq, text_eq_iff, text_eq_refl, any, if◌then◌else◌, Bool-cases, arith, inl, inr,
}
use voidnet.Runtime.State.{RuntimePermissionGrant, RuntimeShellState}
use voidnet.Runtime.Permissions.{
  is_for, find_grant, change_grant, allowed_or, gateway_capability_is_trusted, is_safe_capability,
  upsert_permission, decide, new_grant, negotiate_capabilities,
}

is_for-keys :
    (s p c : Text) (g : RuntimePermissionGrant)
    → is_for s p c g ≡ true
    → (g.surface_id ≡ s) × (g.peer_owner ≡ p) × (g.capability ≡ c)
is_for-keys s p c g h = (
  (text_eq_iff g.surface_id s).0 ground arith,
  (text_eq_iff g.peer_owner p).0 ground arith,
  (text_eq_iff g.capability c).0 ground arith,
)

-- two grants of one key
is_for_same :
    (s p c s2 p2 c2 : Text) (g h : RuntimePermissionGrant)
    → is_for s p c g ≡ true
    → is_for s p c h ≡ true
    → is_for s2 p2 c2 g ≡ is_for s2 p2 c2 h
is_for_same s p c s2 p2 c2 g h x y =
    let (gs, gp, gc) = is_for-keys s p c g x in
    let (hs, hp, hc) = is_for-keys s p c h y in rw gs (rw gp (rw gc (rw hs (rw hp (rw hc refl)))))

find_grant-change_grant :
    (s p c s2 p2 c2 : Text) (new : RuntimePermissionGrant) (grants : List RuntimePermissionGrant)
    → is_for s p c new ≡ true
    → find_grant s2 p2 c2 (change_grant s p c (λ g. new) new grants)
      ≡ (if is_for s2 p2 c2 new then some new else find_grant s2 p2 c2 grants)
unfolding find_grant change_grant
find_grant-change_grant s p c s2 p2 c2 new [] same = refl
find_grant-change_grant s p c s2 p2 c2 new (g ∷ grants) same = elim (Bool-cases (is_for s p c g)) [
  | inl e ↦ rw e (rw (is_for_same s p c s2 p2 c2 g new e same) ground arith)
  | inr e ↦ rw e (
      rw (find_grant-change_grant s p c s2 p2 c2 new grants same) ground
        (arith, e, same, is_for_same s2 p2 c2 s p c g new))
]

-- the texts that pass a test
unfoldable pub keep : (Text → Bool) → List Text → List Text
keep p [] = []
keep p (x ∷ xs) = let rest = keep p xs in if p x then x ∷ rest else rest

module _ {Rest : Type 0} where
  -- what is found after a grant was recorded
  find_grant-upsert_permission :
      (s p c s2 p2 c2 : Text) (now : ℕ) (allowed : Bool) (state : RuntimeShellState Rest)
      → find_grant s2 p2 c2 (upsert_permission (new_grant now s p c allowed) state).permissions ≡ (
          if text_eq s s2 && text_eq p p2 && text_eq c c2
          then some (new_grant now s p c allowed)
          else find_grant s2 p2 c2 state.permissions)
  unfolding upsert_permission
  find_grant-upsert_permission s p c s2 p2 c2 now allowed state =
      find_grant-change_grant s p c s2 p2 c2 (new_grant now s p c allowed) state.permissions ground
        (arith, text_eq_refl s, text_eq_refl p, text_eq_refl c)

  decide_recorded :
      (auto_grant : Bool) (s p : Text) (now : ℕ) (c other : Text) (allowed : Bool)
      (state : RuntimeShellState Rest)
      → decide auto_grant (upsert_permission (new_grant now s p c allowed) state) s p other
        ≡ allowed_or
            (gateway_capability_is_trusted state s other
              || (auto_grant && is_safe_capability other))
            (if text_eq s s && text_eq p p && text_eq c other
              then some (new_grant now s p c allowed)
              else find_grant s p other state.permissions)
  unfolding decide upsert_permission gateway_capability_is_trusted
  decide_recorded auto_grant s p now c other allowed state =
      ap (allowed_or _) (find_grant-upsert_permission s p c s p other now allowed state)

  decided :
      (auto_grant : Bool) (s p other : Text) (state : RuntimeShellState Rest)
      → allowed_or
          (gateway_capability_is_trusted state s other || (auto_grant && is_safe_capability other))
          (find_grant s p other state.permissions)
        ≡ decide auto_grant state s p other
  unfolding decide
  decided auto_grant s p other state = refl

  -- a decision is not changed by recording it, nor by recording another
  decide-upsert_permission :
      (auto_grant : Bool) (s p : Text) (now : ℕ) (c other : Text) (state : RuntimeShellState Rest)
      → decide auto_grant
          (upsert_permission (new_grant now s p c (decide auto_grant state s p c)) state)
          s
          p
          other
        ≡ decide auto_grant state s p other
  decide-upsert_permission auto_grant s p now c other state = elim (Bool-cases (text_eq c other)) [
    | inl e ↦
        decide_recorded auto_grant s p now c other (decide auto_grant state s p c) state
        ∙ rw e (
            rw (text_eq_refl s)
              (rw (text_eq_refl p) (ap (decide auto_grant state s p) ((text_eq_iff c other).0 e))))
    | inr e ↦
        decide_recorded auto_grant s p now c other (decide auto_grant state s p c) state
        ∙ rw e (rw (text_eq_refl s) (rw (text_eq_refl p) (decided auto_grant s p other state)))
  ]

  -- the decision in the state after a negotiation is the one before it
  decide-negotiate_capabilities :
      (auto_grant : Bool) (s p : Text) (now : ℕ) (other : Text) (requested : List Text)
      (state : RuntimeShellState Rest)
      → decide auto_grant
          (negotiate_capabilities auto_grant s p now requested state).after
          s
          p
          other
        ≡ decide auto_grant state s p other
  unfolding negotiate_capabilities
  decide-negotiate_capabilities auto_grant s p now other [] state = refl
  decide-negotiate_capabilities auto_grant s p now other (c ∷ requested) state =
      decide-negotiate_capabilities auto_grant s p now other requested
        (upsert_permission (new_grant now s p c (decide auto_grant state s p c)) state)
      ∙ decide-upsert_permission auto_grant s p now c other state

  -- there is a grant for the capability
  has_grant : (s p c : Text) → RuntimeShellState Rest → Bool
  has_grant s p c state = elim (find_grant s p c state.permissions) [ none ↦ false | some g ↦ true ]

  has_grant-upsert_permission :
      (s p c other : Text) (now : ℕ) (allowed : Bool) (state : RuntimeShellState Rest)
      → has_grant s p other (upsert_permission (new_grant now s p c allowed) state)
        ≡ (text_eq c other || has_grant s p other state)
  unfolding has_grant
  has_grant-upsert_permission s p c other now allowed state =
      rw (has_grant, find_grant-upsert_permission s p c s p other now allowed state)
        (rw (text_eq_refl s) (rw (text_eq_refl p) ground arith))

  -- what was asked for has a grant afterwards
  has_grant-negotiate_capabilities :
      (auto_grant : Bool) (s p : Text) (now : ℕ) (other : Text) (requested : List Text)
      (state : RuntimeShellState Rest)
      → has_grant s p other (negotiate_capabilities auto_grant s p now requested state).after
        ≡ (any (λ c. text_eq c other) requested || has_grant s p other state)
  unfolding negotiate_capabilities
  has_grant-negotiate_capabilities auto_grant s p now other [] state = refl
  has_grant-negotiate_capabilities auto_grant s p now other (c ∷ requested) state = ground (
    arith,
    has_grant-negotiate_capabilities auto_grant s p now other requested
        (upsert_permission (new_grant now s p c (decide auto_grant state s p c)) state),
    has_grant-upsert_permission s p c other now (decide auto_grant state s p c) state,
  )

  -- the grant that is found is what is decided
  allowed_lem :
      (auto_grant : Bool) (s p c : Text) (state : RuntimeShellState Rest)
      → has_grant s p c state ≡ true
      → Option.map RuntimePermissionGrant.allowed (find_grant s p c state.permissions)
        ≡ some (decide auto_grant state s p c)
  unfolding has_grant decide
  allowed_lem auto_grant s p c state h = ground arith

  -- the grants of another surface or peer
  find_grant-negotiate_capabilities :
      (auto_grant : Bool) (s p : Text) (now : ℕ) (s2 p2 c2 : Text) (requested : List Text)
      (state : RuntimeShellState Rest)
      → (text_eq s s2 && text_eq p p2) ≡ false
      → find_grant s2 p2 c2
          (negotiate_capabilities auto_grant s p now requested state).after.permissions
        ≡ find_grant s2 p2 c2 state.permissions
  unfolding negotiate_capabilities
  find_grant-negotiate_capabilities auto_grant s p now s2 p2 c2 [] state h = refl
  find_grant-negotiate_capabilities auto_grant s p now s2 p2 c2 (c ∷ requested) state h =
      find_grant-negotiate_capabilities auto_grant s p now s2 p2 c2 requested
        (upsert_permission (new_grant now s p c (decide auto_grant state s p c)) state) h
      ∙ find_grant-upsert_permission s p c s2 p2 c2 now (decide auto_grant state s p c) state
      ∙ ground (arith, h)

  keep-upsert_permission :
      (auto_grant : Bool) (s p : Text) (now : ℕ) (c : Text) (requested : List Text)
      (state : RuntimeShellState Rest)
      → keep
          (λ x. not (
            decide auto_grant
              (upsert_permission (new_grant now s p c (decide auto_grant state s p c)) state)
              s
              p
              x))
          requested
        ≡ keep (λ x. not (decide auto_grant state s p x)) requested
  keep-upsert_permission auto_grant s p now c requested state =
      λ i. keep (λ x. not (decide-upsert_permission auto_grant s p now c x state i)) requested

  -- the capabilities that were rejected, in their order
  rejected_lem :
      (auto_grant : Bool) (s p : Text) (now : ℕ) (requested : List Text)
      (state : RuntimeShellState Rest)
      → (negotiate_capabilities auto_grant s p now requested state).rejected
        ≡ keep (λ c. not (decide auto_grant state s p c)) requested
  unfolding negotiate_capabilities keep
  rejected_lem auto_grant s p now [] state = refl
  rejected_lem auto_grant s p now (c ∷ requested) state = ground (
    arith,
    rejected_lem auto_grant s p now requested
          (upsert_permission (new_grant now s p c (decide auto_grant state s p c)) state)
        ∙ keep-upsert_permission auto_grant s p now c requested state,
  )

  -- Whatever is asked for, in whatever order and however often, a negotiation decides every capability
  -- by the state before it: the rejected capabilities are the requested ones that this state does not
  -- allow, in their order; for every requested capability the grant stored for the surface and the peer
  -- afterwards has that decision; a negotiation that follows for the same pair decides each capability
  -- alike; and the grants of every other pair of surface and peer stay what they were.
  pub negotiate_capabilities_lem :
      (auto_grant : Bool) (surface_id peer_owner : Text) (now : ℕ) (requested : List Text)
      (state : RuntimeShellState Rest)
      → ((negotiate_capabilities auto_grant surface_id peer_owner now requested state).rejected
          ≡ keep (λ c. not (decide auto_grant state surface_id peer_owner c)) requested)
        × ((c : Text)
            → any (λ r. text_eq r c) requested ≡ true
            → Option.map RuntimePermissionGrant.allowed (
                find_grant surface_id peer_owner c
                  (negotiate_capabilities auto_grant surface_id peer_owner now requested
                    state).after.permissions)
              ≡ some (decide auto_grant state surface_id peer_owner c))
        × ((c : Text)
            → decide auto_grant
                (negotiate_capabilities auto_grant surface_id peer_owner now requested state).after
                surface_id
                peer_owner
                c
              ≡ decide auto_grant state surface_id peer_owner c)
        × ((other_surface other_peer c : Text)
            → (text_eq surface_id other_surface && text_eq peer_owner other_peer) ≡ false
            → find_grant other_surface other_peer c
                (negotiate_capabilities auto_grant surface_id peer_owner now requested
                  state).after.permissions
              ≡ find_grant other_surface other_peer c state.permissions)
  negotiate_capabilities_lem auto_grant s p now requested state =
      let after = (negotiate_capabilities auto_grant s p now requested state).after in
      (
        rejected_lem auto_grant s p now requested state,
        (λ c asked.
            allowed_lem auto_grant s p c after (
              has_grant-negotiate_capabilities auto_grant s p now c requested state
              ∙ ground (arith, asked))
            ∙ ap some (decide-negotiate_capabilities auto_grant s p now c requested state)),
        (λ c. decide-negotiate_capabilities auto_grant s p now c requested state),
        (λ s2 p2 c. find_grant-negotiate_capabilities auto_grant s p now s2 p2 c requested state),
      )
