-- ===== src/Transport/Topology/Locality.antt =====
-- The operations on one peer, and what they leave alone.
use voidnet.Base.{
  ℕ, ◌≡◌, ◌≢◌, refl, Option, some, List, Text, text_eq, text_eq_iff, arith, if◌then◌else◌,
}
use voidnet.Base.Map
use voidnet.Base.Map.{map_option, or_default, get-insert, get-update}
use voidnet.Transport.Topology.Kinds.{PeerConnectionState}
use voidnet.Transport.Topology.Records.{Clock, PeerRuntimeInfo, PeerRecord, new_peer, PeerTopology}
use voidnet.Transport.Topology.Peers.{
  touch, observe_discovered, observe_connected, observe_authenticated, authenticated_peer,
  observe_active, active_peer, observe_latency, observe_disconnected, disconnected_peer,
  observe_failure, observe_runtime_state, placed_peer, discovered_peer, connected_peer,
  latency_peer, failed_peer, runtime_peer,
}
use voidnet.Transport.Topology.Sessions.{
  observe_transport_encryption, observe_session_negotiating, observe_encrypted_session,
  observe_session_activity, observe_session_failure, observe_relay_session,
  observe_hole_punch_attempt, observe_hole_punch_succeeded, observe_hole_punch_failed, secured_peer,
  negotiating_peer, encrypted_peer, busy_peer, session_failed_peer, relayed_peer, punching_peer,
  punched_peer, unpunched_peer,
}

-- The operations on the peer `p` other than a failure of it.
pub data PeerStep (p : Text) : PeerTopology → PeerTopology → Type 0 where
  discovered :
      (t : Clock) (addresses : List Text) (s : PeerTopology)
      → PeerStep p s (observe_discovered t p addresses s)
  connected :
      (t : Clock) (address : Option Text) (transport : Text) (s : PeerTopology)
      → PeerStep p s (observe_connected t p address transport s).1
  authenticated : (t : Clock) (s : PeerTopology) → PeerStep p s (observe_authenticated t p s)
  active : (t : Clock) (s : PeerTopology) → PeerStep p s (observe_active t p s)
  measured :
      (t : Clock) (latency_ms : ℕ) (s : PeerTopology)
      → PeerStep p s (observe_latency t p latency_ms s)
  disconnected : (t : Clock) (s : PeerTopology) → PeerStep p s (observe_disconnected t p s)
  reported :
      (t : Clock) (runtime : PeerRuntimeInfo) (s : PeerTopology)
      → PeerStep p s (observe_runtime_state t p runtime s)
  secured :
      (t : Clock) (cipher : Text) (s : PeerTopology)
      → PeerStep p s (observe_transport_encryption t p cipher s)
  negotiating :
      (t : Clock) (session : Text) (s : PeerTopology)
      → PeerStep p s (observe_session_negotiating t p session s)
  encrypted :
      (t : Clock) (session : Option Text) (cipher : Text) (s : PeerTopology)
      → PeerStep p s (observe_encrypted_session t p session cipher s)
  busy : (t : Clock) (s : PeerTopology) → PeerStep p s (observe_session_activity t p s)
  session_failed :
      (t : Clock) (error : Text) (s : PeerTopology)
      → PeerStep p s (observe_session_failure t p error s)
  relayed :
      (t : Clock) (relay : Option Text) (reason : Text) (s : PeerTopology)
      → PeerStep p s (observe_relay_session t p relay reason s)
  punching : (t : Clock) (s : PeerTopology) → PeerStep p s (observe_hole_punch_attempt t p s)
  punched : (t : Clock) (s : PeerTopology) → PeerStep p s (observe_hole_punch_succeeded t p s)
  unpunched :
      (t : Clock) (error : Text) (s : PeerTopology)
      → PeerStep p s (observe_hole_punch_failed t p error s)

pub get-touch :
    (t : Clock) (p j : Text) (f : PeerRecord → PeerRecord) (now : ℕ) (s : PeerTopology)
    → Map.get j (touch t p f now s).peers ≡ (
        if text_eq p j
        then some (f (or_default (new_peer t p) (Map.get p s.peers)))
        else Map.get j s.peers)
unfolding touch
get-touch t p j f now s = get-insert p j (f (or_default (new_peer t p) (Map.get p s.peers))) s.peers

-- The change `f` leaves the number of failures.
abbrev pub KeepsFailures : (PeerRecord → PeerRecord) → Type 0
KeepsFailures f = (r : PeerRecord) → (f r).failures ≡ r.failures

-- What all these operations are: a change of the record of the peer, and perhaps another one.
pub data Change (p : Text) (s : PeerTopology) : PeerTopology → Type 0 where
  once :
      (t : Clock) (f : PeerRecord → PeerRecord) (now : ℕ)
      → KeepsFailures f
      → Change p s (touch t p f now s)
  twice :
      (t : Clock) (f g : PeerRecord → PeerRecord) (now : ℕ)
      → KeepsFailures f
      → KeepsFailures g
      → Change p s (record (touch t p f now s) { peers = Map.update p g (touch t p f now s).peers })

pub PeerStep-Change : (p : Text) (s s' : PeerTopology) → PeerStep p s s' → Change p s s'
unfolding observe_discovered observe_connected observe_authenticated observe_active observe_latency
    observe_disconnected observe_runtime_state observe_transport_encryption
    observe_session_negotiating observe_encrypted_session observe_session_activity
    observe_session_failure observe_relay_session observe_hole_punch_attempt
    observe_hole_punch_succeeded observe_hole_punch_failed
PeerStep-Change p s s' (discovered t addresses _) =
    once t (discovered_peer t addresses) (t 3) λ r. refl
PeerStep-Change p s s' (connected t address transport _) =
    once t (connected_peer t address transport) (t 2) λ r. refl
PeerStep-Change p s s' (authenticated t _) =
    twice t (placed_peer t PeerConnectionState.syncing) (authenticated_peer t) (t 3) (λ r. refl)
      λ r. refl
PeerStep-Change p s s' (active t _) =
    twice t (placed_peer t PeerConnectionState.active) (active_peer t) (t 3) (λ r. refl) λ r. refl
PeerStep-Change p s s' (measured t latency_ms _) =
    once t (latency_peer t latency_ms) (t 4) λ r. refl
PeerStep-Change p s s' (disconnected t _) =
    twice t (placed_peer t PeerConnectionState.offline) (disconnected_peer t) (t 3) (λ r. refl)
      λ r. refl
PeerStep-Change p s s' (reported t runtime _) = once t (runtime_peer t runtime) (t 3) λ r. refl
PeerStep-Change p s s' (secured t cipher _) = once t (secured_peer t cipher) (t 5) λ r. refl
PeerStep-Change p s s' (negotiating t session _) =
    once t (negotiating_peer t session) (t 2) λ r. refl
PeerStep-Change p s s' (encrypted t session cipher _) =
    once t (encrypted_peer t session cipher) (t 2) λ r. refl
PeerStep-Change p s s' (busy t _) = once t (busy_peer t) (t 2) λ r. refl
PeerStep-Change p s s' (session_failed t error _) =
    once t (session_failed_peer t error) (t 4) λ r. refl
PeerStep-Change p s s' (relayed t relay reason _) =
    once t (relayed_peer t relay reason) (t 2) λ r. refl
PeerStep-Change p s s' (punching t _) = once t (punching_peer t) (t 2) λ r. refl
PeerStep-Change p s s' (punched t _) = once t (punched_peer t) (t 2) λ r. refl
PeerStep-Change p s s' (unpunched t error _) = once t (unpunched_peer t error) (t 2) λ r. refl

-- Everything but the record of `p` and the time of the last change is as before.
abbrev pub IsElsewhereSame : Text → PeerTopology → PeerTopology → Type 0
IsElsewhereSame p s s' =
    ((j : Text) → p ≢ j → Map.get j s'.peers ≡ Map.get j s.peers)
    × (s'.network ≡ s.network)
    × (s'.mesh_state ≡ s.mesh_state)
    × (s'.local_runtime ≡ s.local_runtime)
    × (s'.dns ≡ s.dns)
    × (s'.runtime_shell ≡ s.runtime_shell)
    × (s'.local_peer_id ≡ s.local_peer_id)

touch-IsElsewhereSame :
    (t : Clock) (p : Text) (f : PeerRecord → PeerRecord) (now : ℕ) (s : PeerTopology)
    → IsElsewhereSame p s (touch t p f now s)
unfolding touch
touch-IsElsewhereSame t p f now s = (
  λ j other. ground (
    arith,
    get-insert p j (f (or_default (new_peer t p) (Map.get p s.peers))) s.peers,
    text_eq_iff p j,
  ),
  refl,
  refl,
  refl,
  refl,
  refl,
  refl,
)

update-IsElsewhereSame :
    (p : Text) (g : PeerRecord → PeerRecord) (s s' : PeerTopology)
    → IsElsewhereSame p s s'
    → IsElsewhereSame p s (record s' { peers = Map.update p g s'.peers })
update-IsElsewhereSame p g s s' (same, n, m, l, d, shell, i) = (
  λ j other. ground (arith, get-update g p j s'.peers, text_eq_iff p j, same j other),
  n,
  m,
  l,
  d,
  shell,
  i,
)

Change-IsElsewhereSame : (p : Text) (s s' : PeerTopology) → Change p s s' → IsElsewhereSame p s s'
Change-IsElsewhereSame p s s' (once t f now _) = touch-IsElsewhereSame t p f now s
Change-IsElsewhereSame p s s' (twice t f g now _ _) =
    update-IsElsewhereSame p g s (touch t p f now s) (touch-IsElsewhereSame t p f now s)

-- An operation on a peer other than a failure changes nothing of another peer, of the network part,
-- of the mesh state and of what the topology says of the node itself.
pub PeerStep-IsElsewhereSame :
    (p : Text) (s s' : PeerTopology) → PeerStep p s s' → IsElsewhereSame p s s'
PeerStep-IsElsewhereSame p s s' step = Change-IsElsewhereSame p s s' (PeerStep-Change p s s' step)

-- A failure of a peer changes nothing of another peer, of the network part, of the mesh state and of
-- what the topology says of the node itself.
pub observe_failure-IsElsewhereSame :
    (t : Clock) (p error : Text) (s : PeerTopology)
    → IsElsewhereSame p s (observe_failure t (some p) error s)
unfolding observe_failure
observe_failure-IsElsewhereSame t p error s =
    touch-IsElsewhereSame t p (failed_peer t error) (t 5) s
