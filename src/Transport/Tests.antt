-- ===== src/Transport/Tests.antt =====
-- Runs of the models of core/transport at fixed inputs, and instances of their theorems.
use voidnet.Base.{
  ◌≡◌, refl, List, [], ◌∷◌, true, ◌||◌, Option, none, some, Text, codes, arith, strip_prefix,
  decimal, digits,
}
use voidnet.Base.Map
use voidnet.Base.Map.{or_default}
use voidnet.Base.Ascending.{has}
use voidnet.Transport.Lifecycle.{
  NodeLifecycleState, LifecycleEngine, genesis, bootstrap, transition, mark_failure,
}
use voidnet.Transport.Lifecycle
use voidnet.Transport.Lifecycle.History.{IsChain, moved, failed, Reach, start, next, Reach-IsChain}
use voidnet.Transport.Topology.Kinds.{NetworkReachability, MeshState, PeerConnectionState}
use voidnet.Base.Map.{or_default}
use voidnet.Transport.Topology.Records.{
  Clock, PeerTopology, new, new_peer, dedupe_strings, contains_text, after_first,
  peer_id_from_address, before_first,
}
use voidnet.Transport.Topology.Peers.{
  observe_active, observe_failure, observe_disconnected, merge_addresses, infer_connection_path,
}
use voidnet.Transport.Topology.Mesh.{
  mark_partitioned, active_peer_count, known_peer_count, encrypted_session_count, set_mesh_state,
}
use voidnet.Transport.Topology.Reachability.{Protocol, ip4, other, infer_reachability}
use voidnet.Transport.Topology.Network.{
  observe_bootstrap_dial, observe_bootstrap_connected, nat_detail_of,
}
use voidnet.Transport.Topology.Locality.{active, IsElsewhereSame, PeerStep-IsElsewhereSame}
use voidnet.Transport.Topology.Quarantine.{
  Trace, here, event, on_peer, state_of, failure_quarantines,
}
use voidnet.Transport.Topology.Quarantine
use voidnet.Transport.Topology.Partition.{IsCutIn, get-mark_partitioned, counts-mark_partitioned}
use voidnet.Transport.Topology.Addresses.{
  IsDistinct, merge_addresses_lem, IsInferred, infer_reachability_lem,
}
use voidnet.Transport.Topology.Bootstrap.{observe_bootstrap_connected-dial}
use voidnet.Transport.Topology.Answers.{TellsMesh, set_mesh_state-TellsMesh}
use voidnet.Transport.Topology.Disconnect.{IsGone, get-observe_disconnected}

relayed_path :
    infer_connection_path (some (codes "/p2p/A/p2p-circuit/p2p/B"))
    ≡ voidnet.Transport.Topology.Kinds.ConnectionPath.relay
unfolding infer_connection_path after_first strip_prefix
relayed_path = refl

second_part : peer_id_from_address (codes "/ip4/1.2.3.4/p2p/A/p2p/B") ≡ some (codes "A")
unfolding peer_id_from_address strip_prefix
second_part = refl

three_digits : nat_detail_of (codes "Public") none 120 ≡ codes "status=Public confidence=120"
unfolding nat_detail_of decimal digits
three_digits = refl

-- The engine of a node that starts, and fails.
abbrev booted : LifecycleEngine
booted = (transition 5 bootstrap (codes "identity loaded") (Lifecycle.new 0)).1

abbrev broken : LifecycleEngine
broken = (mark_failure 9 (codes "no peers") booted).1

broken_reached : Reach broken
broken_reached =
    next (next (start 0) (moved 5 bootstrap (codes "identity loaded") (Lifecycle.new 0)))
      (failed 9 (codes "no peers") booted)

Reach-IsChain_example : IsChain genesis broken.history broken.state
Reach-IsChain_example = Reach-IsChain broken broken_reached

-- A clock that shows its places.
abbrev places : Clock
places n = n

abbrev peer_a : Text
peer_a = codes "peer-a"

abbrev address_a : Text
address_a = codes "/ip4/127.0.0.1/udp/1/quic-v1"

abbrev alone : PeerTopology
alone = new 0 (codes "local")

abbrev error_text : Text
error_text = codes "timeout"

-- A peer that was seen, failed twice, and was active in between.
abbrev failed_once : PeerTopology
failed_once = observe_failure places (some peer_a) error_text alone

abbrev active_again : PeerTopology
active_again = observe_active places peer_a failed_once

abbrev failed_twice : PeerTopology
failed_twice = observe_failure places (some peer_a) error_text active_again

two_failures : Trace peer_a 2 alone failed_twice
two_failures =
    Quarantine.failed
      (event (Quarantine.failed (here alone) places error_text)
        (on_peer (active places failed_once)))
      places error_text

failure_quarantines_example :
    state_of (Map.get peer_a (observe_failure places (some peer_a) error_text failed_twice).peers)
    ≡ some PeerConnectionState.quarantined
failure_quarantines_example =
    failure_quarantines peer_a 2 alone failed_twice places error_text two_failures (omega arith)

PeerStep-IsElsewhereSame_example : IsElsewhereSame peer_a failed_once active_again
PeerStep-IsElsewhereSame_example =
    PeerStep-IsElsewhereSame peer_a failed_once active_again (active places failed_once)

get-mark_partitioned_example :
    IsCutIn
      (Map.get peer_a active_again.peers)
      (Map.get peer_a (mark_partitioned places active_again).peers)
get-mark_partitioned_example = get-mark_partitioned places active_again peer_a

counts-mark_partitioned_example :
    (active_peer_count (mark_partitioned places active_again) ≡ 0)
    × (known_peer_count (mark_partitioned places active_again) ≡ known_peer_count active_again)
    × (encrypted_session_count (mark_partitioned places active_again)
        ≡ encrypted_session_count active_again)
counts-mark_partitioned_example = counts-mark_partitioned places active_again

get-observe_disconnected_example :
    (r : voidnet.Transport.Topology.Records.PeerRecord) × (Map.get peer_a
        (observe_disconnected places peer_a active_again).peers
      ≡ some r)
    × IsGone r
    × (r.addresses
        ≡ (or_default (new_peer places peer_a) (Map.get peer_a active_again.peers)).addresses)
    × (r.failures
        ≡ (or_default (new_peer places peer_a) (Map.get peer_a active_again.peers)).failures)
get-observe_disconnected_example = get-observe_disconnected places peer_a active_again

abbrev two_addresses : List Text
two_addresses = address_a ∷ codes "/ip4/8.8.8.8/tcp/1" ∷ []

merge_addresses_lem_example :
    IsDistinct (merge_addresses (address_a ∷ []) two_addresses)
    × ((a : Text)
        → has a (merge_addresses (address_a ∷ []) two_addresses)
          ≡ (has a (address_a ∷ []) || has a two_addresses))
merge_addresses_lem_example = merge_addresses_lem (address_a ∷ []) two_addresses (refl, tt)

-- A parser that takes every address for one of 8.8.8.8.
abbrev parse_public : Text → Option (List Protocol)
parse_public address = some (other (codes "udp") ∷ ip4 (record { a = 8; b = 8; c = 8; d = 8 }) ∷ [])

infer_reachability_lem_example :
    IsInferred parse_public
      (infer_reachability parse_public two_addresses (address_a ∷ []))
      (address_a ∷ two_addresses)
infer_reachability_lem_example = infer_reachability_lem parse_public two_addresses (address_a ∷ [])

observe_bootstrap_connected-dial_example :
    (observe_bootstrap_connected places peer_a
      (some address_a)
      (observe_bootstrap_dial places address_a alone).1).0
    ≡ true
observe_bootstrap_connected-dial_example =
    observe_bootstrap_connected-dial places places peer_a address_a alone

set_mesh_state-TellsMesh_example :
    TellsMesh MeshState.stable alone (set_mesh_state 1 MeshState.stable alone)
set_mesh_state-TellsMesh_example = set_mesh_state-TellsMesh 1 MeshState.stable alone
