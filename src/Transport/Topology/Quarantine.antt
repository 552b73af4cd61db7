-- ===== src/Transport/Topology/Quarantine.antt =====
-- The failures of a peer, and the quarantine that they lead to.
use voidnet.Base.{
  ℕ, suc, ◌≡◌, ◌≤◌, refl, ◌∙◌, ◌⊎◌, inl, Option, none, some, [], ◌∷◌, Text, text_eq, text_eq_iff,
  arith, if◌then◌else◌,
}
use voidnet.Base.Map
use voidnet.Base.Map.{Map, map_option, or_default, get-update}
use voidnet.Transport.Topology.Kinds.{PeerConnectionState}
use voidnet.Transport.Topology.Records.{Clock, saturating_suc, PeerRecord, new_peer, PeerTopology}
use voidnet.Transport.Topology.Peers.{touch, failed_peer, observe_failure}
use voidnet.Transport.Topology.Mesh.{partition_peer, partition_from, mark_partitioned}
use voidnet.Transport.Topology.Locality.{PeerStep, PeerStep-Change, Change, once, twice, get-touch}

abbrev pub failures_of : Option PeerRecord → ℕ
failures_of none = 0
failures_of (some r) = r.failures

-- how often the topology has seen a peer fail
abbrev pub failures_in : Text → PeerTopology → ℕ
failures_in p s = failures_of (Map.get p s.peers)

abbrev pub state_of : Option PeerRecord → Option PeerConnectionState
state_of none = none
state_of (some r) = some r.state

failures_of-map_option :
    (f : PeerRecord → PeerRecord) (o : Option PeerRecord)
    → ((r : PeerRecord) → (f r).failures ≡ r.failures)
    → failures_of (map_option f o) ≡ failures_of o
failures_of-map_option f none h = refl
failures_of-map_option f (some r) h = h r

failures-or_default :
    (t : Clock) (p : Text) (o : Option PeerRecord)
    → (or_default (new_peer t p) o).failures ≡ failures_of o
unfolding new_peer
failures-or_default t p none = refl
failures-or_default t p (some r) = refl

failures_in-touch :
    (t : Clock) (p j : Text) (f : PeerRecord → PeerRecord) (now : ℕ) (s : PeerTopology)
    → ((r : PeerRecord) → (f r).failures ≡ r.failures)
    → failures_in j (touch t p f now s) ≡ failures_in j s
failures_in-touch t p j f now s h = ground (
  arith,
  get-touch t p j f now s,
  text_eq_iff p j,
  h (or_default (new_peer t p) (Map.get p s.peers)),
  failures-or_default t p (Map.get p s.peers),
)

failures_in-update :
    (p j : Text) (f : PeerRecord → PeerRecord) (s : PeerTopology)
    → ((r : PeerRecord) → (f r).failures ≡ r.failures)
    → failures_in j (record s { peers = Map.update p f s.peers }) ≡ failures_in j s
failures_in-update p j f s h = ground (
  arith,
  get-update f p j s.peers,
  text_eq_iff p j,
  failures_of-map_option f (Map.get j s.peers) h,
)

failures_in-Change :
    (p j : Text) (s s' : PeerTopology) → Change p s s' → failures_in j s' ≡ failures_in j s
failures_in-Change p j s s' (once t f now h) = failures_in-touch t p j f now s h
failures_in-Change p j s s' (twice t f g now h k) =
    failures_in-update p j g (touch t p f now s) k ∙ failures_in-touch t p j f now s h

failures-partition_peer : (now : ℕ) (r : PeerRecord) → (partition_peer now r).failures ≡ r.failures
unfolding partition_peer
failures-partition_peer now r = ground arith

failures_of-partition_from :
    (t : Clock) (n : ℕ) (j : Text) (m : Map PeerRecord)
    → failures_of (Map.get j (partition_from t n m)) ≡ failures_of (Map.get j m)
unfolding Map.get partition_from
failures_of-partition_from t n j [] = refl
failures_of-partition_from t n j ((k, r) ∷ m) =
    ground (arith, failures-partition_peer (t n) r, failures_of-partition_from t (suc n) j m)

failures_in-observe_failure :
    (t : Clock) (p j error : Text) (s : PeerTopology)
    → failures_in j (observe_failure t (some p) error s)
      ≡ (if text_eq p j then saturating_suc (failures_in j s) else failures_in j s)
unfolding observe_failure
failures_in-observe_failure t p j error s = ground (
  arith,
  get-touch t p j (failed_peer t error) (t 5) s,
  text_eq_iff p j,
  failures-or_default t p (Map.get p s.peers),
)

-- What may happen between two failures of a peer: an operation on any peer, a failure of any peer, a
-- partition, or a change that leaves the peers as they are.
pub data Event : PeerTopology → PeerTopology → Type 0 where
  on_peer : {p : Text} {s s' : PeerTopology} → PeerStep p s s' → Event s s'
  failure :
      (t : Clock) (p error : Text) (s : PeerTopology) → Event s (observe_failure t (some p) error s)
  partition : (t : Clock) (s : PeerTopology) → Event s (mark_partitioned t s)
  elsewhere : {s s' : PeerTopology} → s'.peers ≡ s.peers → Event s s'

-- The events from one topology to another, among them `n` failures of `p` or more.
pub data Trace (p : Text) : ℕ → PeerTopology → PeerTopology → Type 0 where
  here : (s : PeerTopology) → Trace p 0 s s
  event : {n : ℕ} {s s' s'' : PeerTopology} → Trace p n s s' → Event s' s'' → Trace p n s s''
  failed :
      {n : ℕ} {s s' : PeerTopology}
      → Trace p n s s'
      → (t : Clock) (error : Text) → Trace p (suc n) s (observe_failure t (some p) error s')

-- no fewer, or enough for the quarantine
abbrev pub IsKept : ℕ → ℕ → Type 0
IsKept n m = (n ≤ m) ⊎ (3 ≤ m)

Event-IsKept :
    (p : Text) (s s' : PeerTopology) → Event s s' → IsKept (failures_in p s) (failures_in p s')
unfolding mark_partitioned
Event-IsKept p s s' (on_peer {p = q} step) =
    ground (arith, failures_in-Change q p s s' (PeerStep-Change q s s' step))
Event-IsKept p s s' (failure t q error _) =
    ground (arith, failures_in-observe_failure t q p error s)
Event-IsKept p s s' (partition t _) = ground (arith, failures_of-partition_from t 1 p s.peers)
Event-IsKept p s s' (elsewhere same) = inl (rw same (omega arith))

Trace-IsKept :
    (p : Text) (n : ℕ) (s s' : PeerTopology) → Trace p n s s' → IsKept n (failures_in p s')
Trace-IsKept p _ s _ (here _) = inl (omega arith)
Trace-IsKept p n s s'' (event {s' = s'} trace e) =
    ground (arith, Event-IsKept p s' s'' e, Trace-IsKept p n s s' trace)
Trace-IsKept p _ s _ (failed {n} {s' = s'} trace t error) = ground (
  arith,
  failures_in-observe_failure t p p error s',
  text_eq_iff p p,
  Trace-IsKept p n s s' trace,
)

state-failed_peer :
    (t : Clock) (error : Text) (r : PeerRecord)
    → 2 ≤ r.failures
    → (failed_peer t error r).state ≡ PeerConnectionState.quarantined
state-failed_peer t error r h = ground arith

-- A peer that has failed twice or more is in quarantine after it fails once more, whatever happened
-- to it and to the others between its failures.
pub failure_quarantines :
    (p : Text) (n : ℕ) (s s' : PeerTopology) (t : Clock) (error : Text)
    → Trace p n s s'
    → 2 ≤ n
    → state_of (Map.get p (observe_failure t (some p) error s').peers)
      ≡ some PeerConnectionState.quarantined
unfolding observe_failure
failure_quarantines p n s s' t error trace h = ground (
  arith,
  get-touch t p p (failed_peer t error) (t 5) s',
  text_eq_iff p p,
  failures-or_default t p (Map.get p s'.peers),
  Trace-IsKept p n s s' trace,
  state-failed_peer t error (or_default (new_peer t p) (Map.get p s'.peers)),
)
