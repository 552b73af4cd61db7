-- ===== src/Transport/Topology/Sessions.antt =====
-- The operations of `PeerTopology` on the session of one peer, core/transport/src/topology.rs.
use voidnet.Base.{true, Option, none, some, Text, codes}
use voidnet.Base.Map.{or_default}
use voidnet.Transport.Topology.Kinds.TransportHealth.{healthy}
use voidnet.Transport.Topology.Kinds.ConnectionPath.{direct, relay}
use voidnet.Transport.Topology.Records.{Clock, saturating_suc, PeerRecord, PeerTopology}
use voidnet.Transport.Topology.Peers.{touch}

abbrev pub secured_peer : Clock → Text → PeerRecord → PeerRecord
secured_peer t cipher r = record r {
  session = record r.session {
    encrypted = true;
    cipher = some cipher;
    encryption_state = codes "TRANSPORT-SECURE";
    transport_state = or_default (codes "QUIC") r.transport;
    last_activity_unix_ms = some (t 2);
    last_changed_unix_ms = t 3;
  };
  transport_health = healthy;
  last_seen_unix_ms = t 4;
}

unfoldable pub observe_transport_encryption : Clock → Text → Text → PeerTopology → PeerTopology
observe_transport_encryption t peer_id cipher s = touch t peer_id (secured_peer t cipher) (t 5) s

-- In the operations below `now` is the reading `t 2`.
abbrev pub negotiating_peer : Clock → Text → PeerRecord → PeerRecord
negotiating_peer t session_id r = record r {
  session = record r.session {
    session_id = some session_id;
    encryption_state = codes "NEGOTIATING";
    transport_state = codes "GOSSIPSUB-DIRECT";
    connection_path = direct;
    last_activity_unix_ms = some (t 2);
    last_changed_unix_ms = t 2;
  };
  last_seen_unix_ms = t 2;
}

unfoldable pub observe_session_negotiating : Clock → Text → Text → PeerTopology → PeerTopology
observe_session_negotiating t peer_id session_id s =
    touch t peer_id (negotiating_peer t session_id) (t 2) s

-- `a` if it is there, and else `b`
abbrev pub or_else {ℓ} : {A : Type ℓ} → Option A → Option A → Option A
or_else none b = b
or_else (some a) b = some a

abbrev pub encrypted_peer : Clock → Option Text → Text → PeerRecord → PeerRecord
encrypted_peer t session_id cipher r = record r {
  session = record r.session {
    encrypted = true;
    cipher = some cipher;
    session_id = or_else session_id r.session.session_id;
    established_at_unix_ms = or_else r.session.established_at_unix_ms (some (t 2));
    encryption_state = codes "ESTABLISHED";
    transport_state = codes "GOSSIPSUB-DIRECT";
    connection_path = direct;
    last_activity_unix_ms = some (t 2);
    last_error = none;
    last_changed_unix_ms = t 2;
  };
  transport_health = healthy;
  last_seen_unix_ms = t 2;
}

unfoldable pub observe_encrypted_session :
    Clock → Text → Option Text → Text → PeerTopology → PeerTopology
observe_encrypted_session t peer_id session_id cipher s =
    touch t peer_id (encrypted_peer t session_id cipher) (t 2) s

abbrev pub busy_peer : Clock → PeerRecord → PeerRecord
busy_peer t r = record r {
  session = record r.session { last_activity_unix_ms = some (t 2); last_changed_unix_ms = t 2 };
  last_seen_unix_ms = t 2;
}

unfoldable pub observe_session_activity : Clock → Text → PeerTopology → PeerTopology
observe_session_activity t peer_id s = touch t peer_id (busy_peer t) (t 2) s

abbrev pub session_failed_peer : Clock → Text → PeerRecord → PeerRecord
session_failed_peer t error r = record r {
  session = record r.session {
    encryption_state = codes "FAILED";
    last_error = some error;
    last_changed_unix_ms = t 2;
  };
  last_seen_unix_ms = t 3;
}

unfoldable pub observe_session_failure : Clock → Text → Text → PeerTopology → PeerTopology
observe_session_failure t peer_id error s = touch t peer_id (session_failed_peer t error) (t 4) s

abbrev pub relayed_peer : Clock → Option Text → Text → PeerRecord → PeerRecord
relayed_peer t relay_peer_id reason r = record r {
  session = record r.session {
    connection_path = relay;
    transport_state = codes "RELAY-CIRCUIT";
    relay_peer_id = relay_peer_id;
    relay_activation_reason = some reason;
    relay_established_at_unix_ms = or_else r.session.relay_established_at_unix_ms (some (t 2));
    last_changed_unix_ms = t 2;
  };
  last_seen_unix_ms = t 2;
}

unfoldable pub observe_relay_session :
    Clock → Text → Option Text → Text → PeerTopology → PeerTopology
observe_relay_session t peer_id relay_peer_id reason s =
    touch t peer_id (relayed_peer t relay_peer_id reason) (t 2) s

abbrev pub punching_peer : Clock → PeerRecord → PeerRecord
punching_peer t r = record r {
  session = record r.session {
    hole_punch_attempts = saturating_suc r.session.hole_punch_attempts;
    direct_upgrade_attempts = saturating_suc r.session.direct_upgrade_attempts;
    last_changed_unix_ms = t 2;
  };
  last_seen_unix_ms = t 2;
}

unfoldable pub observe_hole_punch_attempt : Clock → Text → PeerTopology → PeerTopology
observe_hole_punch_attempt t peer_id s = touch t peer_id (punching_peer t) (t 2) s

abbrev pub punched_peer : Clock → PeerRecord → PeerRecord
punched_peer t r = record r {
  session = record r.session {
    hole_punch_successes = saturating_suc r.session.hole_punch_successes;
    last_error = none;
    last_changed_unix_ms = t 2;
  };
  last_seen_unix_ms = t 2;
}

unfoldable pub observe_hole_punch_succeeded : Clock → Text → PeerTopology → PeerTopology
observe_hole_punch_succeeded t peer_id s = touch t peer_id (punched_peer t) (t 2) s

abbrev pub unpunched_peer : Clock → Text → PeerRecord → PeerRecord
unpunched_peer t error r = record r {
  session = record r.session { last_error = some error; last_changed_unix_ms = t 2 };
  last_seen_unix_ms = t 2;
}

unfoldable pub observe_hole_punch_failed : Clock → Text → Text → PeerTopology → PeerTopology
observe_hole_punch_failed t peer_id error s = touch t peer_id (unpunched_peer t error) (t 2) s
