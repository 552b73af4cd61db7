-- ===== src/Transport/Topology/Disconnect.antt =====
-- What a disconnection leaves of a peer.
use voidnet.Base.{◌≡◌, refl, false, none, some, Text, text_eq_refl, arith}
use voidnet.Base.Map
use voidnet.Base.Map.{or_default, map_option, get-update}
use voidnet.Transport.Topology.Kinds.{PeerConnectionState, TransportHealth, ConnectionPath}
use voidnet.Transport.Topology.Records.{Clock, PeerRecord, new_peer, PeerTopology}
use voidnet.Transport.Topology.Peers.{placed_peer, disconnected_peer, observe_disconnected}
use voidnet.Transport.Topology.Mesh.{is_ready}
use voidnet.Transport.Topology.Locality.{get-touch}

-- The peer is offline: without encryption, a way to it, a relay and a runtime that is ready.
abbrev pub IsGone : PeerRecord → Type 0
IsGone r =
    (r.state ≡ PeerConnectionState.offline)
    × (r.transport_health ≡ TransportHealth.offline)
    × (r.session.encrypted ≡ false)
    × (r.session.cipher ≡ none)
    × (r.session.connection_path ≡ ConnectionPath.unknown)
    × (r.session.relay_peer_id ≡ none)
    × (r.session.relay_established_at_unix_ms ≡ none)
    × (is_ready r ≡ false)

disconnected_peer-IsGone :
    (t : Clock) (r : PeerRecord)
    → IsGone (disconnected_peer t (placed_peer t PeerConnectionState.offline r))
disconnected_peer-IsGone t r = (refl, refl, refl, refl, refl, refl, refl, ground arith)

-- After a disconnection the topology has a record of the peer, which says that it is offline, has no
-- encryption, no way to it, no relay and no runtime that is ready, and keeps its addresses and the
-- number of its failures; a peer that was unknown has none of either.
pub get-observe_disconnected :
    (t : Clock) (p : Text) (s : PeerTopology)
    → let before = or_default (new_peer t p) (Map.get p s.peers) in
      (r : PeerRecord) × (Map.get p (observe_disconnected t p s).peers ≡ some r)
      × IsGone r
      × (r.addresses ≡ before.addresses)
      × (r.failures ≡ before.failures)
unfolding observe_disconnected
get-observe_disconnected t p s =
    let before = or_default (new_peer t p) (Map.get p s.peers) in
    (
      disconnected_peer t (placed_peer t PeerConnectionState.offline before),
      rw (get-update, text_eq_refl, get-touch, text_eq_refl) refl,
      disconnected_peer-IsGone t before,
      refl,
      refl,
    )
