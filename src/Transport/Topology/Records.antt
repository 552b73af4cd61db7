-- ===== src/Transport/Topology/Records.antt =====
-- What the topology keeps, core/transport/src/topology.rs. Each place of an operation that reads
-- the clock has a number, and `t n` is what the clock shows there (a `Clock`).
use voidnet.Base.{
  ℕ, suc, Bool, true, false, Option, none, some, List, [], ◌∷◌, Text, codes, sort, dedup, ltb,
  strip_prefix, if◌then◌else◌,
}
use voidnet.Base.Map.{Map}
use voidnet.Transport.Lifecycle.{NodeLifecycleState}
use voidnet.Transport.Topology.Kinds.{
  PeerConnectionState, TransportHealth, MeshState, ConnectionPath, NetworkReachability,
  BootstrapState, RelayReservationState,
}

abbrev pub Clock : Type 0
Clock = ℕ → ℕ

-- `u32::MAX`, and `saturating_add(1)` of a `u32`
abbrev pub u32_max : ℕ
u32_max = 4294967295

abbrev pub saturating_suc : ℕ → ℕ
saturating_suc n = if ltb n u32_max then suc n else u32_max

unfoldable pub dedupe_strings : List Text → List Text
dedupe_strings items = dedup (sort items)

-- What follows the first `p` in a text.
unfoldable pub after_first : Text → Text → Option Text
after_first p [] = strip_prefix p []
after_first p (x ∷ s) = elim (strip_prefix p (x ∷ s)) [
  | some rest ↦ some rest
  | none ↦ after_first p s
]

-- What stands before the first `p`, the whole text if there is none.
unfoldable pub before_first : Text → Text → Text
before_first p [] = []
before_first p (x ∷ s) = elim (strip_prefix p (x ∷ s)) [
  | some rest ↦ []
  | none ↦ x ∷ before_first p s
]

-- `s.contains(p)`, for a `p` that is not empty
unfoldable pub contains_text : Text → Text → Bool
contains_text s p = elim (after_first p s) [ some _ ↦ true | none ↦ false ]

-- The second part of the text split at `/p2p/`.
unfoldable pub peer_id_from_address : Text → Option Text
unfolding after_first before_first
peer_id_from_address address = elim (after_first (codes "/p2p/") address) [
  | some rest ↦ some (before_first (codes "/p2p/") rest)
  | none ↦ none
]

pub record BootstrapPeerStatus : Type 0 where
  pub address : Text
  pub peer_id : Option Text
  pub state : BootstrapState
  pub relay_reservation : RelayReservationState
  pub reconnect_attempts : ℕ
  pub last_attempt_unix_ms : Option ℕ
  pub last_connected_unix_ms : Option ℕ
  pub last_relay_reservation_attempt_unix_ms : Option ℕ
  pub last_relay_reservation_success_unix_ms : Option ℕ
  pub last_relay_reservation_error : Option Text
  pub last_error : Option Text

pub record NetworkTopologyInfo : Type 0 where
  pub listen_addresses : List Text
  pub observed_addresses : List Text
  pub bootstrap_peers : List BootstrapPeerStatus
  pub reachability : NetworkReachability
  pub nat_detail : Option Text
  pub last_updated_unix_ms : ℕ

unfoldable pub new_bootstrap : Text → BootstrapPeerStatus
unfolding peer_id_from_address
new_bootstrap address = record {
  address = address;
  peer_id = peer_id_from_address address;
  state = BootstrapState.configured;
  relay_reservation = RelayReservationState.inactive;
  reconnect_attempts = 0;
  last_attempt_unix_ms = none;
  last_connected_unix_ms = none;
  last_relay_reservation_attempt_unix_ms = none;
  last_relay_reservation_success_unix_ms = none;
  last_relay_reservation_error = none;
  last_error = none;
}

abbrev pub default_network : ℕ → NetworkTopologyInfo
default_network now = record {
  listen_addresses = [];
  observed_addresses = [];
  bootstrap_peers = [];
  reachability = NetworkReachability.unknown;
  nat_detail = none;
  last_updated_unix_ms = now;
}

pub record PeerRuntimeInfo : Type 0 where
  pub runtime_version : Text
  pub node_state : NodeLifecycleState
  pub uptime_secs : ℕ
  pub capabilities : List Text
  pub transport_health : TransportHealth
  pub runtime_ready : Bool
  pub last_updated_unix_ms : ℕ

unfoldable pub new_runtime :
    ℕ → Text → NodeLifecycleState → ℕ → List Text → TransportHealth → Bool → PeerRuntimeInfo
new_runtime now version state uptime capabilities health ready = record {
  runtime_version = version;
  node_state = state;
  uptime_secs = uptime;
  capabilities = dedup (sort capabilities);
  transport_health = health;
  runtime_ready = ready;
  last_updated_unix_ms = now;
}

unfoldable pub refresh :
    ℕ → ℕ → NodeLifecycleState → TransportHealth → Bool → PeerRuntimeInfo → PeerRuntimeInfo
refresh now uptime state health ready r = record r {
  uptime_secs = uptime;
  node_state = state;
  transport_health = health;
  runtime_ready = ready;
  last_updated_unix_ms = now;
}

pub record DnsTopologyInfo : Type 0 where
  pub cache_entries : ℕ
  pub active_records : ℕ
  pub conflicts : ℕ
  pub runtime_registrations : List Text
  pub last_resolution_latency_ms : Option ℕ
  pub last_updated_unix_ms : ℕ

pub record RuntimeShellTopologyInfo : Type 0 where
  pub mounted_surfaces : ℕ
  pub active_sessions : ℕ
  pub active_permissions : ℕ
  pub failed_mounts : ℕ
  pub registry_entries : ℕ
  pub ui_surfaces : ℕ
  pub gateway_registrations : ℕ
  pub gateway_mounts : ℕ
  pub gateway_active_routes : ℕ
  pub gateway_permission_grants : ℕ
  pub gateway_bridge_failures : ℕ
  pub gateway_bridge_sessions : ℕ
  pub gateway_snapshot_entries : ℕ
  pub state_revisions : ℕ
  pub rerender_count : ℕ
  pub hot_reload_count : ℕ
  pub sync_count : ℕ
  pub permission_denials : ℕ
  pub last_render_duration_ms : Option ℕ
  pub last_action : Option Text
  pub last_error : Option Text
  pub gateway_last_route : Option Text
  pub gateway_last_external_target : Option Text
  pub gateway_last_bridge_state : Option Text
  pub gateway_last_cache_state : Option Text
  pub gateway_last_fetch_latency_ms : Option ℕ
  pub gateway_last_response_size : Option ℕ
  pub last_mount_latency_ms : Option ℕ
  pub last_updated_unix_ms : ℕ

pub record SessionInfo : Type 0 where
  pub session_id : Option Text
  pub encrypted : Bool
  pub cipher : Option Text
  pub established_at_unix_ms : Option ℕ
  pub encryption_state : Text
  pub last_activity_unix_ms : Option ℕ
  pub transport_state : Text
  pub connection_path : ConnectionPath
  pub relay_peer_id : Option Text
  pub relay_activation_reason : Option Text
  pub relay_established_at_unix_ms : Option ℕ
  pub hole_punch_attempts : ℕ
  pub hole_punch_successes : ℕ
  pub direct_upgrade_attempts : ℕ
  pub reconnect_attempts : ℕ
  pub last_error : Option Text
  pub last_changed_unix_ms : ℕ

unfoldable pub default_session : ℕ → SessionInfo
default_session now = record {
  session_id = none;
  encrypted = false;
  cipher = none;
  established_at_unix_ms = none;
  encryption_state = codes "IDLE";
  last_activity_unix_ms = none;
  transport_state = codes "UNKNOWN";
  connection_path = ConnectionPath.unknown;
  relay_peer_id = none;
  relay_activation_reason = none;
  relay_established_at_unix_ms = none;
  hole_punch_attempts = 0;
  hole_punch_successes = 0;
  direct_upgrade_attempts = 0;
  reconnect_attempts = 0;
  last_error = none;
  last_changed_unix_ms = now;
}

pub record PeerRecord : Type 0 where
  pub peer_id : Text
  pub addresses : List Text
  pub state : PeerConnectionState
  pub latency_ms : Option ℕ
  pub transport : Option Text
  pub transport_health : TransportHealth
  pub runtime : Option PeerRuntimeInfo
  pub session : SessionInfo
  pub failures : ℕ
  pub last_seen_unix_ms : ℕ

-- The clock is read at places 0 and 1.
unfoldable pub new_peer : Clock → Text → PeerRecord
new_peer t peer_id = record {
  peer_id = peer_id;
  addresses = [];
  state = PeerConnectionState.discovered;
  latency_ms = none;
  transport = none;
  transport_health = TransportHealth.unknown;
  runtime = none;
  session = default_session (t 0);
  failures = 0;
  last_seen_unix_ms = t 1;
}

pub record PeerTopology : Type 0 where
  pub local_peer_id : Text
  pub local_runtime : Option PeerRuntimeInfo
  pub dns : Option DnsTopologyInfo
  pub runtime_shell : Option RuntimeShellTopologyInfo
  pub network : Option NetworkTopologyInfo
  pub mesh_state : MeshState
  pub peers : Map PeerRecord
  pub updated_unix_ms : ℕ

unfoldable pub new : ℕ → Text → PeerTopology
new now local_peer_id = record {
  local_peer_id = local_peer_id;
  local_runtime = none;
  dns = none;
  runtime_shell = none;
  network = none;
  mesh_state = MeshState.bootstrapping;
  peers = [];
  updated_unix_ms = now;
}
