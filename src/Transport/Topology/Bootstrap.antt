-- ===== src/Transport/Topology/Bootstrap.antt =====
-- The dials of bootstrap peers, and what the topology finds of them afterwards.
use voidnet.Base.{
  ◌≡◌, refl, inl, inr, Bool, true, false, ◌||◌, Option, none, some, List, [], ◌∷◌, ◌++◌, Text,
  text_eq, text_eq_iff, arith, Bool-cases, Option-cases,
}
use voidnet.Base.Map.{or_default}
use voidnet.Transport.Topology.Records.{
  Clock, BootstrapPeerStatus, new_bootstrap, NetworkTopologyInfo, default_network, PeerTopology,
}
use voidnet.Transport.Topology.Network.{
  is_bootstrap, bootstrap_record_mut, dialed, first_dialed, dial, observe_bootstrap_dial,
  on_bootstrap, observe_bootstrap_connected, connected_bootstrap, replaced,
}

-- One of the records stands for the address.
abbrev pub knows : Text → List BootstrapPeerStatus → Bool
knows address [] = false
knows address (r ∷ rs) = text_eq r.address address || knows address rs

knows-append :
    (address : Text) (rs qs : List BootstrapPeerStatus)
    → knows address (rs ++ qs) ≡ (knows address rs || knows address qs)
knows-append address [] qs = refl
knows-append address (r ∷ rs) qs = ground (arith, knows-append address rs qs)

-- The records that a change of the first fitting one leaves, if there is one.
abbrev records_of :
    Option (BootstrapPeerStatus × List BootstrapPeerStatus) → List BootstrapPeerStatus
records_of none = []
records_of (some (_, rs)) = rs

abbrev is_found : Option (BootstrapPeerStatus × List BootstrapPeerStatus) → Bool
is_found none = false
is_found (some _) = true

is_found-bootstrap_record_mut :
    (p : Option Text) (a : Text) (f : BootstrapPeerStatus → BootstrapPeerStatus)
    (rs : List BootstrapPeerStatus)
    → knows a rs ≡ true
    → is_found (bootstrap_record_mut p (some a) f rs) ≡ true
unfolding bootstrap_record_mut
is_found-bootstrap_record_mut p a f [] h = h
is_found-bootstrap_record_mut p a f (r ∷ rs) h = elim (Bool-cases (is_bootstrap p (some a) r)) [
  | inl e ↦ rw e refl
  | inr e ↦ rw e (ground (arith, is_found-bootstrap_record_mut p a f rs))
]

-- a change of the record for an address leaves a record for it
knows-bootstrap_record_mut :
    (a : Text) (f : BootstrapPeerStatus → BootstrapPeerStatus) (rs : List BootstrapPeerStatus)
    → ((r : BootstrapPeerStatus) → (f r).address ≡ r.address)
    → is_found (bootstrap_record_mut none (some a) f rs) ≡ true
    → knows a (records_of (bootstrap_record_mut none (some a) f rs)) ≡ true
unfolding bootstrap_record_mut
knows-bootstrap_record_mut a f [] same h = cc
knows-bootstrap_record_mut a f (r ∷ rs) same h = elim (Bool-cases (text_eq r.address a)) [
  | inl e ↦ rw (e, same r, e) refl
  | inr e ↦ ground (arith, knows-bootstrap_record_mut a f rs same)
]

knows-dial :
    (t : Clock) (a : Text) (rs : List BootstrapPeerStatus)
    → knows a (dial t a (bootstrap_record_mut none (some a) (dialed t) rs) rs).1 ≡ true
unfolding new_bootstrap
knows-dial t a rs = elim (Option-cases (bootstrap_record_mut none (some a) (dialed t) rs)) [
  | inl e ↦ rw e (ground (arith, knows-append a rs (first_dialed t a ∷ []), text_eq_iff a a))
  | inr (found, e) ↦ ground (arith, knows-bootstrap_record_mut a (dialed t) rs (λ r. refl))
]

replaced-found :
    (t : Clock) (n : NetworkTopologyInfo)
    (o : Option (BootstrapPeerStatus × List BootstrapPeerStatus)) (s : PeerTopology)
    → is_found o ≡ true
    → (replaced t n o s).0 ≡ true
replaced-found t n none s h = cc
replaced-found t n (some _) s h = refl

-- A peer that connects under an address that was dialed is found among the bootstrap peers, at
-- whatever times the dial and the connection happen.
pub observe_bootstrap_connected-dial :
    (t later : Clock) (p a : Text) (s : PeerTopology)
    → (observe_bootstrap_connected later p (some a) (observe_bootstrap_dial t a s).1).0 ≡ true
unfolding observe_bootstrap_connected observe_bootstrap_dial on_bootstrap
observe_bootstrap_connected-dial t later p a s =
    let n = or_default (default_network (t 0)) s.network in
    let rs = n.bootstrap_peers in
    let dialed_rs = (dial t a (bootstrap_record_mut none (some a) (dialed t) rs) rs).1 in
    replaced-found later (record n { bootstrap_peers = dialed_rs; last_updated_unix_ms = t 2 })
      (bootstrap_record_mut (some p) (some a) (connected_bootstrap later p) dialed_rs)
      (observe_bootstrap_dial t a s).1
      (is_found-bootstrap_record_mut (some p) a (connected_bootstrap later p) dialed_rs
        (knows-dial t a rs))
