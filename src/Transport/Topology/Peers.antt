-- ===== src/Transport/Topology/Peers.antt =====
-- The operations of `PeerTopology` on one peer, core/transport/src/topology.rs. A `…_peer` is the
-- change that the operation makes to the record of the peer.
use voidnet.Base.{
  ℕ, Bool, true, false, Option, none, some, List, [], ◌∷◌, ◌++◌, Text, codes, leb, any, text_eq,
  if◌then◌else◌,
}
use voidnet.Base.Map
use voidnet.Base.Map.{map_option, or_default}
use voidnet.Transport.Lifecycle
use voidnet.Transport.Lifecycle.{NodeLifecycleState}
use voidnet.Transport.Topology.Kinds.{
  PeerConnectionState, TransportHealth, ConnectionPath, is_quarantined,
}
use voidnet.Transport.Topology.Kinds.PeerConnectionState.{
  discovered, authenticating, syncing, active, quarantined, offline,
}
use voidnet.Transport.Topology.Kinds.TransportHealth.{unknown, healthy, degraded}
use voidnet.Transport.Topology.Kinds.ConnectionPath.{direct, relay}
use voidnet.Transport.Topology.Records.{
  Clock, saturating_suc, contains_text, PeerRuntimeInfo, SessionInfo, PeerRecord, new_peer,
  PeerTopology,
}

unfoldable pub merge_addresses : List Text → List Text → List Text
merge_addresses existing [] = existing
merge_addresses existing (address ∷ incoming) =
    merge_addresses (if any (text_eq address) existing then existing else existing ++ address ∷ [])
      incoming

unfoldable pub infer_connection_path : Option Text → ConnectionPath
unfolding contains_text
infer_connection_path none = ConnectionPath.unknown
infer_connection_path (some address) =
    if contains_text address (codes "/p2p-circuit") then relay else direct

abbrev pub clear_relay_session : SessionInfo → SessionInfo
clear_relay_session session = record session {
  relay_peer_id = none;
  relay_activation_reason = none;
  relay_established_at_unix_ms = none;
}

-- `entry(peer_id).or_insert_with(PeerRecord::new)`, a change of the record, and the time of it
unfoldable pub touch : Clock → Text → (PeerRecord → PeerRecord) → ℕ → PeerTopology → PeerTopology
touch t peer_id f now s = record s {
  peers = Map.upsert peer_id (new_peer t peer_id) f s.peers;
  updated_unix_ms = now;
}

abbrev pub placed_peer : Clock → PeerConnectionState → PeerRecord → PeerRecord
placed_peer t state r = record r { state = state; last_seen_unix_ms = t 2 }

abbrev pub set_state : Clock → Text → PeerConnectionState → PeerTopology → PeerTopology
set_state t peer_id state s = touch t peer_id (placed_peer t state) (t 3) s

-- the four fields of a peer's runtime that an operation sets together
abbrev pub set_runtime :
    NodeLifecycleState → Bool → TransportHealth → ℕ → PeerRuntimeInfo → PeerRuntimeInfo
set_runtime state ready health now runtime = record runtime {
  node_state = state;
  runtime_ready = ready;
  transport_health = health;
  last_updated_unix_ms = now;
}

abbrev pub known_health : TransportHealth → TransportHealth
known_health unknown = degraded
known_health health = health

abbrev pub discovered_peer : Clock → List Text → PeerRecord → PeerRecord
discovered_peer t addresses r = record r {
  addresses = merge_addresses r.addresses addresses;
  state = discovered;
  transport_health = known_health r.transport_health;
  last_seen_unix_ms = t 2;
}

unfoldable pub observe_discovered : Clock → Text → List Text → PeerTopology → PeerTopology
observe_discovered t peer_id addresses s = touch t peer_id (discovered_peer t addresses) (t 3) s

abbrev pub merge_address : Option Text → List Text → List Text
merge_address none existing = existing
merge_address (some address) existing = merge_addresses existing (address ∷ [])

abbrev pub clear_if_direct : ConnectionPath → SessionInfo → SessionInfo
clear_if_direct direct session = clear_relay_session session
clear_if_direct _ session = session

-- `now` is the reading `t 2`.
abbrev pub connected_peer : Clock → Option Text → Text → PeerRecord → PeerRecord
connected_peer t address transport r =
    let path = infer_connection_path address in
    record r {
      addresses = merge_address address r.addresses;
      transport = some transport;
      state = authenticating;
      transport_health = healthy;
      session =
          record (clear_if_direct path
            (record r.session { transport_state = codes "CONNECTED"; connection_path = path })) {
              last_error = none;
              last_changed_unix_ms = t 2;
            };
      last_seen_unix_ms = t 2;
    }

unfoldable pub observe_connected :
    Clock → Text → Option Text → Text → PeerTopology → ConnectionPath × PeerTopology
observe_connected t peer_id address transport s =
    (infer_connection_path address, touch t peer_id (connected_peer t address transport) (t 2) s)

abbrev pub authenticated_peer : Clock → PeerRecord → PeerRecord
authenticated_peer t r = record r {
  runtime = map_option (set_runtime Lifecycle.syncing false r.transport_health (t 4)) r.runtime;
}

unfoldable pub observe_authenticated : Clock → Text → PeerTopology → PeerTopology
observe_authenticated t peer_id s =
    let s' = set_state t peer_id syncing s in
    record s' { peers = Map.update peer_id (authenticated_peer t) s'.peers }

abbrev pub active_peer : Clock → PeerRecord → PeerRecord
active_peer t r = record r {
  transport_health = healthy;
  runtime = map_option (set_runtime Lifecycle.active true healthy (t 4)) r.runtime;
}

unfoldable pub observe_active : Clock → Text → PeerTopology → PeerTopology
observe_active t peer_id s =
    let s' = set_state t peer_id active s in
    record s' { peers = Map.update peer_id (active_peer t) s'.peers }

abbrev pub synced : PeerConnectionState → PeerConnectionState
synced syncing = active
synced state = state

abbrev pub latency_peer : Clock → ℕ → PeerRecord → PeerRecord
latency_peer t latency_ms r = record r {
  latency_ms = some latency_ms;
  transport_health = healthy;
  last_seen_unix_ms = t 2;
  state = synced r.state;
  runtime = map_option (set_runtime Lifecycle.active true healthy (t 3)) r.runtime;
}

unfoldable pub observe_latency : Clock → Text → ℕ → PeerTopology → PeerTopology
observe_latency t peer_id latency_ms s = touch t peer_id (latency_peer t latency_ms) (t 4) s

abbrev pub disconnected_peer : Clock → PeerRecord → PeerRecord
disconnected_peer t r = record r {
  transport_health = TransportHealth.offline;
  session =
      record (clear_relay_session (record r.session {
        encrypted = false;
        cipher = none;
        encryption_state = codes "OFFLINE";
        transport_state = codes "OFFLINE";
        connection_path = ConnectionPath.unknown;
      })) { last_changed_unix_ms = t 4 };
  runtime =
      map_option (set_runtime Lifecycle.offline false TransportHealth.offline (t 5)) r.runtime;
}

unfoldable pub observe_disconnected : Clock → Text → PeerTopology → PeerTopology
observe_disconnected t peer_id s =
    let s' = set_state t peer_id offline s in
    record s' { peers = Map.update peer_id (disconnected_peer t) s'.peers }

-- the state of a peer with this many failures, and that of its runtime
abbrev pub state_after : ℕ → PeerConnectionState → PeerConnectionState
state_after failures state = if leb 3 failures then quarantined else state

abbrev pub runtime_state_after : PeerConnectionState → NodeLifecycleState
runtime_state_after state =
    if is_quarantined state then Lifecycle.quarantined else Lifecycle.discovering

abbrev pub failed_peer : Clock → Text → PeerRecord → PeerRecord
failed_peer t error r =
    let failures = saturating_suc r.failures in
    let state = state_after failures r.state in
    record r {
      failures = failures;
      transport_health = degraded;
      session = record r.session {
        reconnect_attempts = saturating_suc r.session.reconnect_attempts;
        transport_state = codes "DEGRADED";
        encryption_state = codes "FAILED";
        last_error = some error;
        last_changed_unix_ms = t 2;
      };
      state = state;
      runtime = map_option (set_runtime (runtime_state_after state) false degraded (t 3)) r.runtime;
      last_seen_unix_ms = t 4;
    }

unfoldable pub observe_failure : Clock → Option Text → Text → PeerTopology → PeerTopology
observe_failure t none error s = s
observe_failure t (some peer_id) error s = touch t peer_id (failed_peer t error) (t 5) s

abbrev pub runtime_peer : Clock → PeerRuntimeInfo → PeerRecord → PeerRecord
runtime_peer t runtime r = record r {
  transport_health = runtime.transport_health;
  runtime = some runtime;
  last_seen_unix_ms = t 2;
}

unfoldable pub observe_runtime_state : Clock → Text → PeerRuntimeInfo → PeerTopology → PeerTopology
observe_runtime_state t peer_id runtime s = touch t peer_id (runtime_peer t runtime) (t 3) s
