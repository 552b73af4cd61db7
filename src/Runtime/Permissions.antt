-- ===== src/Runtime/Permissions.antt =====
-- The permissions of surfaces in core/runtime/src/lib.rs.
use voidnet.Base.{
  ℕ, Bool, true, false, ◌&&◌, ◌||◌, Option, none, some, List, [], ◌∷◌, Text, text_eq, Result, ok,
  err, codes, strip_prefix, if◌then◌else◌,
}
use voidnet.Base.Keyed.{find_key}
use voidnet.Node.Event.{
  TransportEvent, capability_requested, capability_granted, capability_rejected,
}
use voidnet.Runtime.State.{
  RuntimeSurfaceRegistration, GatewayTrustPolicy, RuntimePermissionGrant, RuntimeShellState,
  RuntimeError, permission_denied, is_gateway, is_trusted_level, is_trusted_state,
}

abbrev pub starts_with : Text → Text → Bool
starts_with p s = elim (strip_prefix p s) [ none ↦ false | some _ ↦ true ]

unfoldable pub is_safe_capability : Text → Bool
is_safe_capability capability =
    text_eq capability (codes "messaging")
    || text_eq capability (codes "encrypted-sessions")
    || text_eq capability (codes "chat/direct-e2ee")
    || text_eq capability (codes "dns/addressable")
    || text_eq capability (codes "routing/void-uri")
    || text_eq capability (codes "service/chat")
    || text_eq capability (codes "surface/messaging")
    || text_eq capability (codes "surface/room-access")
    || text_eq capability (codes "surface/notifications")
    || text_eq capability (codes "runtime/session-access")
    || starts_with (codes "service/") capability

-- the first registration of a gateway under the surface
unfoldable pub find_gateway :
    Text → List RuntimeSurfaceRegistration → Option RuntimeSurfaceRegistration
find_gateway surface_id [] = none
find_gateway surface_id (entry ∷ registry) =
    if text_eq entry.surface_id surface_id && is_gateway entry.surface_kind
    then some entry
    else find_gateway surface_id registry

-- `find` by the domain
abbrev pub find_policy : Text → List GatewayTrustPolicy → Option GatewayTrustPolicy
find_policy domain policies = find_key GatewayTrustPolicy.gateway_domain domain policies

abbrev pub is_trusted_policy : Option GatewayTrustPolicy → Bool
is_trusted_policy none = false
is_trusted_policy (some policy) =
    is_trusted_state policy.trust_state && is_trusted_level policy.trust_level

abbrev pub trusted_gateway : List GatewayTrustPolicy → Option RuntimeSurfaceRegistration → Bool
trusted_gateway policies none = false
trusted_gateway policies (some entry) = is_trusted_policy (find_policy entry.domain policies)

module _ {Rest : Type 0} where
  unfoldable pub gateway_capability_is_trusted :
      RuntimeShellState Rest → (surface_id capability : Text) → Bool
  gateway_capability_is_trusted s surface_id capability =
      starts_with (codes "gateway.") capability
      && trusted_gateway s.gateway_trust (find_gateway surface_id s.registry)

-- the grant is the one of the surface, the peer and the capability
abbrev pub is_for : (surface_id peer_owner capability : Text) → RuntimePermissionGrant → Bool
is_for surface_id peer_owner capability g =
    text_eq g.surface_id surface_id
    && text_eq g.peer_owner peer_owner
    && text_eq g.capability capability

unfoldable pub find_grant :
    (surface_id peer_owner capability : Text)
    → List RuntimePermissionGrant
    → Option RuntimePermissionGrant
find_grant surface_id peer_owner capability [] = none
find_grant surface_id peer_owner capability (g ∷ permissions) =
    if is_for surface_id peer_owner capability g
    then some g
    else find_grant surface_id peer_owner capability permissions

-- the change of the grant that is found, or else a push of `d`
unfoldable pub change_grant :
    (surface_id peer_owner capability : Text) (f : RuntimePermissionGrant → RuntimePermissionGrant)
    (d : RuntimePermissionGrant)
    → List RuntimePermissionGrant
    → List RuntimePermissionGrant
change_grant surface_id peer_owner capability f d [] = d ∷ []
change_grant surface_id peer_owner capability f d (g ∷ permissions) =
    let rest = change_grant surface_id peer_owner capability f d permissions in
    if is_for surface_id peer_owner capability g then f g ∷ permissions else g ∷ rest

-- `find` by the surface and the capability, whoever the peer is
unfoldable pub find_surface_grant :
    (surface_id capability : Text) → List RuntimePermissionGrant → Option RuntimePermissionGrant
find_surface_grant surface_id capability [] = none
find_surface_grant surface_id capability (g ∷ permissions) =
    if text_eq g.surface_id surface_id && text_eq g.capability capability
    then some g
    else find_surface_grant surface_id capability permissions

abbrev pub allowed_or : Bool → Option RuntimePermissionGrant → Bool
allowed_or d none = d
allowed_or d (some g) = g.allowed

abbrev pub new_grant :
    (now : ℕ) (surface_id peer_owner capability : Text) (allowed : Bool) → RuntimePermissionGrant
new_grant now surface_id peer_owner capability allowed = record {
  surface_id = surface_id;
  peer_owner = peer_owner;
  capability = capability;
  allowed = allowed;
  persisted = allowed && is_safe_capability capability;
  requested_at_unix_ms = now;
  decided_at_unix_ms = now;
}

abbrev pub decision_event :
    (surface_id peer_owner capability : Text) (allowed : Bool) → TransportEvent
decision_event surface_id peer_owner capability true =
    capability_granted peer_owner capability surface_id
decision_event surface_id peer_owner capability false =
    capability_rejected peer_owner capability (codes "permission not granted in runtime shell")

-- what a negotiation gives: the grants, the capabilities that were rejected, the events, and the state
pub record Negotiated (Rest : Type 0) : Type 0 where
  pub grants : List RuntimePermissionGrant
  pub rejected : List Text
  pub events : List TransportEvent
  pub after : RuntimeShellState Rest

module _ {Rest : Type 0} where
  unfoldable pub upsert_permission :
      RuntimePermissionGrant → RuntimeShellState Rest → RuntimeShellState Rest
  upsert_permission grant s = record s {
    permissions =
        change_grant grant.surface_id grant.peer_owner grant.capability (λ g. grant) grant
          s.permissions;
  }

  -- `persist` is the write of the state's file
  unfoldable pub grant_permission :
      (persist : RuntimeShellState Rest → Result RuntimeError (Unit {0}))
      → (now : ℕ) (surface_id peer_owner capability : Text) (allowed : Bool)
      → RuntimeShellState Rest
      → Result RuntimeError (Unit {0}) × RuntimeShellState Rest
  grant_permission persist now surface_id peer_owner capability allowed s =
      let new : RuntimePermissionGrant = record {
        surface_id = surface_id;
        peer_owner = peer_owner;
        capability = capability;
        allowed = allowed;
        persisted = true;
        requested_at_unix_ms = now;
        decided_at_unix_ms = now;
      } in
      let after = record s {
        permissions =
            change_grant surface_id peer_owner capability
              (λ g. record g { allowed = allowed; persisted = true; decided_at_unix_ms = now }) new
              s.permissions;
        updated_unix_ms = now;
      } in
      (persist after, after)

  unfoldable pub has_surface_capability :
      RuntimeShellState Rest → (surface_id capability : Text) → Bool
  has_surface_capability s surface_id capability =
      allowed_or
        (gateway_capability_is_trusted s surface_id capability || is_safe_capability capability)
        (find_surface_grant surface_id capability s.permissions)

  unfoldable pub require_capability :
      RuntimeShellState Rest → (surface_id capability : Text) → Result RuntimeError (Unit {0})
  require_capability s surface_id capability =
      if has_surface_capability s surface_id capability
      then ok tt
      else err (permission_denied surface_id (capability ∷ []))

  -- what `negotiate_capabilities` decides of one capability
  unfoldable pub decide :
      (auto_grant : Bool)
      → RuntimeShellState Rest
      → (surface_id peer_owner capability : Text) → Bool
  decide auto_grant s surface_id peer_owner capability =
      allowed_or
        (gateway_capability_is_trusted s surface_id capability
          || (auto_grant && is_safe_capability capability))
        (find_grant surface_id peer_owner capability s.permissions)

  -- `auto_grant` is `auto_grant_safe_capabilities` of the configuration
  unfoldable pub negotiate_capabilities :
      (auto_grant : Bool) (surface_id peer_owner : Text) (now : ℕ)
      → (requested : List Text) → RuntimeShellState Rest
      → Negotiated Rest
  negotiate_capabilities auto_grant surface_id peer_owner now [] s = record {
    grants = [];
    rejected = [];
    events = [];
    after = s;
  }
  negotiate_capabilities auto_grant surface_id peer_owner now (capability ∷ requested) s =
      let allowed = decide auto_grant s surface_id peer_owner capability in
      let grant = new_grant now surface_id peer_owner capability allowed in
      let later =
        negotiate_capabilities auto_grant surface_id peer_owner now requested
          (upsert_permission grant s) in
      record {
        grants = grant ∷ later.grants;
        rejected = if allowed then later.rejected else capability ∷ later.rejected;
        events =
            capability_requested surface_id capability peer_owner
            ∷ decision_event surface_id peer_owner capability allowed
            ∷ later.events;
        after = later.after;
      }
