-- ===== src/Transport/Topology/Mesh.antt =====
-- The operations of `PeerTopology` on the node itself and on all peers, and its counts,
-- core/transport/src/topology.rs.
use voidnet.Base.{
  ℕ, suc, Bool, true, false, Option, none, some, List, [], ◌∷◌, ◌++◌, Text, length, if◌then◌else◌,
  count,
}
use voidnet.Base.Map
use voidnet.Base.Map.{Map, map_option}
use voidnet.Transport.Lifecycle
use voidnet.Transport.Lifecycle.{NodeLifecycleState}
use voidnet.Transport.Topology.Kinds.{
  PeerConnectionState, TransportHealth, MeshState, ConnectionPath, BootstrapState,
  RelayReservationState, is_quarantined, is_offline, is_active, MeshState-discrete,
}
use voidnet.Transport.Topology.Records.{
  Clock, BootstrapPeerStatus, NetworkTopologyInfo, PeerRuntimeInfo, refresh, DnsTopologyInfo,
  RuntimeShellTopologyInfo, PeerRecord, PeerTopology,
}
use voidnet.Transport.Topology.Peers.{set_runtime}

unfoldable pub set_local_runtime : ℕ → PeerRuntimeInfo → PeerTopology → PeerTopology
set_local_runtime now runtime s = record s { local_runtime = some runtime; updated_unix_ms = now }

unfoldable pub set_dns_state : ℕ → DnsTopologyInfo → PeerTopology → PeerTopology
set_dns_state now dns s = record s { dns = some dns; updated_unix_ms = now }

unfoldable pub set_runtime_shell_state : ℕ → RuntimeShellTopologyInfo → PeerTopology → PeerTopology
set_runtime_shell_state now shell s = record s { runtime_shell = some shell; updated_unix_ms = now }

abbrev pub refresh_known :
    Option PeerRuntimeInfo
    → Clock
    → ℕ
    → NodeLifecycleState
    → TransportHealth
    → Bool
    → PeerTopology
    → PeerTopology
refresh_known none t uptime state condition ready s = s
refresh_known (some runtime) t uptime state condition ready s = record s {
  local_runtime = some (refresh (t 0) uptime state condition ready runtime);
  updated_unix_ms = t 1;
}

unfoldable pub refresh_local_runtime :
    Clock → ℕ → NodeLifecycleState → TransportHealth → Bool → PeerTopology → PeerTopology
refresh_local_runtime t uptime state condition ready s =
    refresh_known s.local_runtime t uptime state condition ready s

-- `set_mesh_state` where the comparison of the two states says whether they are the same
abbrev pub mesh_unless : {P : Type 0} → Dec P → ℕ → MeshState → PeerTopology → Bool × PeerTopology
mesh_unless (yes _) now state s = (false, s)
mesh_unless (no _) now state s = (true, record s { mesh_state = state; updated_unix_ms = now })

unfoldable pub set_mesh_state : ℕ → MeshState → PeerTopology → Bool × PeerTopology
set_mesh_state now state s = mesh_unless (MeshState-discrete s.mesh_state state) now state s

unfoldable pub partition_peer : ℕ → PeerRecord → PeerRecord
partition_peer now r = if is_quarantined r.state then r else record r {
  state = PeerConnectionState.partitioned;
  transport_health = TransportHealth.partitioned;
  runtime =
      map_option (set_runtime Lifecycle.partitioned false TransportHealth.partitioned now)
        r.runtime;
}

-- The clock is read at place `n` for the first peer, at the next place for the next one.
unfoldable pub partition_from : Clock → ℕ → Map PeerRecord → Map PeerRecord
unfolding partition_peer
partition_from t n [] = []
partition_from t n ((k, r) ∷ m) = (k, partition_peer (t n) r) ∷ partition_from t (suc n) m

unfoldable pub mark_partitioned : Clock → PeerTopology → PeerTopology
unfolding partition_from
mark_partitioned t s = record s {
  mesh_state = MeshState.partitioned;
  peers = partition_from t 1 s.peers;
  updated_unix_ms = t 0;
}

abbrev pub is_ready : PeerRecord → Bool
is_ready r = elim r.runtime [ none ↦ false | some runtime ↦ runtime.runtime_ready ]

abbrev pub is_direct : ConnectionPath → Bool
is_direct ConnectionPath.direct = true
is_direct _ = false

abbrev pub is_relay : ConnectionPath → Bool
is_relay ConnectionPath.relay = true
is_relay _ = false

unfoldable pub active_peer_count : PeerTopology → ℕ
active_peer_count s = count (λ r. is_active r.state) (Map.values s.peers)

unfoldable pub known_peer_count : PeerTopology → ℕ
known_peer_count s = length s.peers

unfoldable pub encrypted_session_count : PeerTopology → ℕ
encrypted_session_count s = count (λ r. r.session.encrypted) (Map.values s.peers)

unfoldable pub runtime_ready_peer_count : PeerTopology → ℕ
runtime_ready_peer_count s = count is_ready (Map.values s.peers)

abbrev addresses_of : List PeerRecord → List Text
addresses_of [] = []
addresses_of (r ∷ rs) =
    if is_offline r.state then addresses_of rs else r.addresses ++ addresses_of rs

unfoldable pub connected_addresses : PeerTopology → List Text
connected_addresses s = addresses_of (Map.values s.peers)

unfoldable pub direct_connection_count : PeerTopology → ℕ
direct_connection_count s = count (λ r. is_direct r.session.connection_path) (Map.values s.peers)

unfoldable pub relay_connection_count : PeerTopology → ℕ
relay_connection_count s = count (λ r. is_relay r.session.connection_path) (Map.values s.peers)

abbrev pub is_reserved : RelayReservationState → Bool
is_reserved RelayReservationState.reserved = true
is_reserved _ = false

abbrev pub is_connected : BootstrapState → Bool
is_connected BootstrapState.connected = true
is_connected _ = false

abbrev pub is_degraded : BootstrapState → Bool
is_degraded BootstrapState.degraded = true
is_degraded _ = false

abbrev pub bootstraps : Option NetworkTopologyInfo → List BootstrapPeerStatus
bootstraps none = []
bootstraps (some network) = network.bootstrap_peers

unfoldable pub reserved_relay_count : PeerTopology → ℕ
reserved_relay_count s = count (λ b. is_reserved b.relay_reservation) (bootstraps s.network)

unfoldable pub connected_bootstrap_count : PeerTopology → ℕ
connected_bootstrap_count s = count (λ b. is_connected b.state) (bootstraps s.network)

unfoldable pub degraded_bootstrap_count : PeerTopology → ℕ
degraded_bootstrap_count s = count (λ b. is_degraded b.state) (bootstraps s.network)
