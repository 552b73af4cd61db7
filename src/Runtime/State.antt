-- ===== src/Runtime/State.antt =====
-- The records of core/runtime/src/lib.rs that the permissions of surfaces rest on.
use voidnet.Base.{ℕ, Bool, true, false, Option, List, Text}
use voidnet.Protocol.Uri.{VoidUri}

pub data RuntimeSurfaceKind : Type 0 where
  application gateway : RuntimeSurfaceKind

pub data GatewayTrustLevel : Type 0 where
  trusted restricted untrusted : GatewayTrustLevel

pub data GatewayTrustState : Type 0 where
  trusted warning pending denied : GatewayTrustState

pub record RuntimeSurfaceRegistration : Type 0 where
  pub domain : Text
  pub surface_id : Text
  pub runtime_surface : Text
  pub entry_uri : VoidUri
  pub owner_peer_id : Text
  pub capabilities : List Text
  pub handler : Text
  pub surface_kind : RuntimeSurfaceKind
  pub supported_protocols : List Text
  pub external_route_base : Option Text
  pub trust_level : Option GatewayTrustLevel
  pub surface_path : Option Text

pub record GatewayPermissionDecision : Type 0 where
  pub capability : Text
  pub allowed : Bool
  pub reason : Text
  pub decided_at_unix_ms : ℕ

pub record GatewayTrustPolicy : Type 0 where
  pub gateway_domain : Text
  pub gateway_id : Text
  pub owner_peer : Text
  pub trust_level : GatewayTrustLevel
  pub trust_state : GatewayTrustState
  pub capability_scope : List Text
  pub runtime_restrictions : List Text
  pub permission_history : List GatewayPermissionDecision
  pub last_warning : Option Text
  pub updated_unix_ms : ℕ

pub record RuntimePermissionGrant : Type 0 where
  pub surface_id : Text
  pub peer_owner : Text
  pub capability : Text
  pub allowed : Bool
  pub persisted : Bool
  pub requested_at_unix_ms : ℕ
  pub decided_at_unix_ms : ℕ

-- `rest` stands for the mounts, sessions, gateway routes, bridge sessions and UI surfaces, which the
-- operations here leave alone.
pub record RuntimeShellState (Rest : Type 0) : Type 0 where
  pub registry : List RuntimeSurfaceRegistration
  pub permissions : List RuntimePermissionGrant
  pub gateway_trust : List GatewayTrustPolicy
  pub updated_unix_ms : ℕ
  pub rest : Rest

-- The errors of files, of the other crates and of the UI by the text that is displayed.
pub data RuntimeError : Type 0 where
  io json dns transport chat ui : Text → RuntimeError
  name_not_found topology : Text → RuntimeError
  permission_denied : (surface_id : Text) (missing_capabilities : List Text) → RuntimeError
  surface_registration_missing surface_document_missing surface_not_rendered : Text → RuntimeError
  gateway_trust_denied gateway_not_registered gateway_invalid_domain :
      (domain : Text) → RuntimeError
  http_bridge input_missing unknown_action : Text → RuntimeError

abbrev pub is_gateway : RuntimeSurfaceKind → Bool
is_gateway gateway = true
is_gateway application = false

abbrev pub is_trusted_level : GatewayTrustLevel → Bool
is_trusted_level GatewayTrustLevel.trusted = true
is_trusted_level other = false

abbrev pub is_trusted_state : GatewayTrustState → Bool
is_trusted_state GatewayTrustState.trusted = true
is_trusted_state other = false
