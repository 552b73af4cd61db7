-- ===== src/Transport/Topology/Network.antt =====
-- The network part of `PeerTopology`: its addresses and bootstrap peers, core/transport/src/topology.rs.
use voidnet.Base.{
  ℕ, Bool, true, false, ◌||◌, Option, none, some, List, [], ◌∷◌, ◌++◌, map, Text, text_eq, codes,
  is_empty, if◌then◌else◌, decimal,
}
use voidnet.Base.Map.{or_default}
use voidnet.Transport.Topology.Kinds.{
  NetworkReachability, NetworkReachability-discrete, BootstrapState, RelayReservationState,
}
use voidnet.Transport.Topology.Records.{
  Clock, saturating_suc, dedupe_strings, BootstrapPeerStatus, new_bootstrap, NetworkTopologyInfo,
  default_network, PeerTopology,
}
use voidnet.Transport.Topology.Peers.{merge_addresses}
use voidnet.Transport.Topology.Sessions.{or_else}
use voidnet.Transport.Topology.Reachability.{Protocol, infer_reachability}

-- The network part after a change `f` of it, which begins as the default at the place 0 of the clock.
abbrev pub with_network :
    Clock → (NetworkTopologyInfo → NetworkTopologyInfo) → ℕ → PeerTopology → PeerTopology
with_network t f now s = record s {
  network = some (f (or_default (default_network (t 0)) s.network));
  updated_unix_ms = now;
}

unfoldable pub configure_bootstrap : Clock → List Text → PeerTopology → PeerTopology
configure_bootstrap t addresses s =
    with_network t
      (λ n. record n {
        bootstrap_peers = map new_bootstrap (dedupe_strings addresses);
        last_updated_unix_ms = t 1;
      })
      (t 2) s

abbrev pub is_text : Option Text → Option Text → Bool
is_text (some candidate) (some a) = text_eq a candidate
is_text (some candidate) none = false
is_text none a = false

abbrev pub is_bootstrap : Option Text → Option Text → BootstrapPeerStatus → Bool
is_bootstrap peer_id address r = is_text peer_id r.peer_id || is_text address (some r.address)

abbrev pub skipped :
    BootstrapPeerStatus
    → Option (BootstrapPeerStatus × List BootstrapPeerStatus)
    → Option (BootstrapPeerStatus × List BootstrapPeerStatus)
skipped r none = none
skipped r (some (found, rs)) = some (found, r ∷ rs)

-- `bootstrap_record_mut`: a change `f` of the first record that is meant, if there is one
unfoldable pub bootstrap_record_mut :
    Option Text
    → Option Text
    → (BootstrapPeerStatus → BootstrapPeerStatus)
    → List BootstrapPeerStatus
    → Option (BootstrapPeerStatus × List BootstrapPeerStatus)
bootstrap_record_mut peer_id address f [] = none
bootstrap_record_mut peer_id address f (r ∷ rs) =
    let rest = bootstrap_record_mut peer_id address f rs in
    if is_bootstrap peer_id address r then some (f r, f r ∷ rs) else skipped r rest

abbrev pub dialed : Clock → BootstrapPeerStatus → BootstrapPeerStatus
dialed t r = record r {
  reconnect_attempts = saturating_suc r.reconnect_attempts;
  state = BootstrapState.dialing;
  last_attempt_unix_ms = some (t 1);
  last_error = none;
}

abbrev pub first_dialed : Clock → Text → BootstrapPeerStatus
first_dialed t address = record (new_bootstrap address) {
  reconnect_attempts = 1;
  state = BootstrapState.dialing;
  last_attempt_unix_ms = some (t 1);
}

-- the record that was dialed and all records
abbrev pub dial :
    Clock
    → Text
    → Option (BootstrapPeerStatus × List BootstrapPeerStatus)
    → List BootstrapPeerStatus
    → ℕ × List BootstrapPeerStatus
dial t address (some (found, rs')) rs = (found.reconnect_attempts, rs')
dial t address none rs = (1, rs ++ first_dialed t address ∷ [])

unfoldable pub observe_bootstrap_dial : Clock → Text → PeerTopology → ℕ × PeerTopology
observe_bootstrap_dial t address s =
    let n = or_default (default_network (t 0)) s.network in
    let (attempt, peers) =
      dial t address (bootstrap_record_mut none (some address) (dialed t) n.bootstrap_peers)
        n.bootstrap_peers in
    (
      attempt,
      with_network t (λ n. record n { bootstrap_peers = peers; last_updated_unix_ms = t 2 }) (t 3)
          s,
    )

-- What the operations below do with the network and the records: the new records take their place,
-- and where no record was meant nothing changes and the answer is false.
abbrev pub replaced :
    Clock
    → NetworkTopologyInfo
    → Option (BootstrapPeerStatus × List BootstrapPeerStatus)
    → PeerTopology
    → Bool × PeerTopology
replaced t n none s = (false, s)
replaced t n (some (_, peers)) s = (
  true,
  record s {
    network = some (record n { bootstrap_peers = peers; last_updated_unix_ms = t 1 });
    updated_unix_ms = t 2;
  },
)

unfoldable pub on_bootstrap :
    Clock
    → Option NetworkTopologyInfo
    → Option Text
    → Option Text
    → (BootstrapPeerStatus → BootstrapPeerStatus)
    → PeerTopology
    → Bool × PeerTopology
on_bootstrap t none peer_id address f s = (false, s)
on_bootstrap t (some n) peer_id address f s =
    replaced t n (bootstrap_record_mut peer_id address f n.bootstrap_peers) s

abbrev pub connected_bootstrap : Clock → Text → BootstrapPeerStatus → BootstrapPeerStatus
connected_bootstrap t peer_id r = record r {
  peer_id = or_else r.peer_id (some peer_id);
  state = BootstrapState.connected;
  last_connected_unix_ms = some (t 0);
  last_error = none;
}

unfoldable pub observe_bootstrap_connected :
    Clock → Text → Option Text → PeerTopology → Bool × PeerTopology
observe_bootstrap_connected t peer_id address s =
    on_bootstrap t s.network (some peer_id) address (connected_bootstrap t peer_id) s

unfoldable pub observe_relay_reservation_attempt :
    Clock → Option Text → Option Text → PeerTopology → Bool × PeerTopology
observe_relay_reservation_attempt t peer_id address s =
    on_bootstrap t s.network peer_id address
      (λ r. record r {
        relay_reservation = RelayReservationState.attempting;
        last_relay_reservation_attempt_unix_ms = some (t 0);
        last_relay_reservation_error = none;
      })
      s

unfoldable pub observe_relay_reservation_accepted :
    Clock → Option Text → Option Text → PeerTopology → Bool × PeerTopology
observe_relay_reservation_accepted t peer_id address s =
    on_bootstrap t s.network peer_id address
      (λ r. record r {
        relay_reservation = RelayReservationState.reserved;
        last_relay_reservation_success_unix_ms = some (t 0);
        last_relay_reservation_error = none;
      })
      s

unfoldable pub observe_relay_reservation_failed :
    Clock → Option Text → Option Text → Text → PeerTopology → Bool × PeerTopology
observe_relay_reservation_failed t peer_id address error s =
    on_bootstrap t s.network peer_id address
      (λ r. record r {
        relay_reservation = RelayReservationState.failed;
        last_relay_reservation_error = some error;
        last_relay_reservation_attempt_unix_ms =
            or_else r.last_relay_reservation_attempt_unix_ms (some (t 0));
      })
      s

unfoldable pub observe_bootstrap_failure :
    Clock → Option Text → Option Text → Text → PeerTopology → Bool × PeerTopology
observe_bootstrap_failure t peer_id address error s =
    on_bootstrap t s.network peer_id address
      (λ r. record r {
        state = BootstrapState.degraded;
        last_error = some error;
        last_attempt_unix_ms = or_else r.last_attempt_unix_ms (some (t 0));
      })
      s

unfoldable pub network_reachability : PeerTopology → NetworkReachability
network_reachability s = elim s.network [
  | none ↦ NetworkReachability.unknown
  | some n ↦ n.reachability
]

-- What the operations below answer: the reachability, if it has changed.
abbrev pub changed_to : {P : Type 0} → Dec P → NetworkReachability → Option NetworkReachability
changed_to (yes _) after = none
changed_to (no _) after = some after

abbrev pub if_changed : NetworkReachability → NetworkReachability → Option NetworkReachability
if_changed before after = changed_to (NetworkReachability-discrete after before) after

unfoldable pub nat_detail_of : Text → Option Text → ℕ → Text
nat_detail_of status none confidence =
    codes "status=" ++ status ++ codes " confidence=" ++ decimal confidence
nat_detail_of status (some address) confidence =
    codes "status="
    ++ status
    ++ codes " public_address="
    ++ address
    ++ codes " confidence="
    ++ decimal confidence

module _ (parse : Text → Option (List Protocol)) where
  abbrev pub inferred : NetworkTopologyInfo → NetworkTopologyInfo
  inferred n = record n {
    reachability = infer_reachability parse n.listen_addresses n.observed_addresses;
  }

  unfoldable pub set_listen_addresses : Clock → List Text → PeerTopology → PeerTopology
  set_listen_addresses t addresses s =
      with_network t
        (λ n. record (inferred (record n { listen_addresses = dedupe_strings addresses })) {
          last_updated_unix_ms = t 1;
        })
        (t 2) s

  abbrev pub observed : Text → NetworkTopologyInfo → NetworkTopologyInfo
  observed address n =
      inferred
        (record n { observed_addresses = merge_addresses n.observed_addresses (address ∷ []) })

  unfoldable pub observe_observed_address :
      Clock → Text → PeerTopology → Option NetworkReachability × PeerTopology
  observe_observed_address t address s =
      if is_empty address
      then (none, s)
      else let s' =
          with_network t (λ n. record (observed address n) { last_updated_unix_ms = t 1 }) (t 2)
            s in
        (if_changed (network_reachability s) (network_reachability s'), s')

  abbrev pub merge_public : Option Text → NetworkTopologyInfo → NetworkTopologyInfo
  merge_public none n = n
  merge_public (some address) n = record n {
    observed_addresses = merge_addresses n.observed_addresses (address ∷ []);
  }

  abbrev pub judged : Text → NetworkTopologyInfo → NetworkTopologyInfo
  judged status n =
      if text_eq status (codes "Public")
      then record n { reachability = NetworkReachability.public }
      else if text_eq status (codes "Private")
      then record n { reachability = NetworkReachability.private }
      else inferred n

  unfoldable pub observe_nat_status :
      Clock → Text → Option Text → ℕ → PeerTopology → Option NetworkReachability × PeerTopology
  observe_nat_status t status public_address confidence s =
      let s' =
        with_network t
          (λ n.
            record (judged status (record (merge_public public_address n) {
              nat_detail = some (nat_detail_of status public_address confidence);
            })) { last_updated_unix_ms = t 1 })
          (t 2) s in
      (if_changed (network_reachability s) (network_reachability s'), s')
