-- ===== src/Transport/Topology/Kinds.antt =====
-- The states that core/transport/src/topology.rs tells apart, as it displays them.
use voidnet.Base.{Bool, true, false, Text, codes}

pub data PeerConnectionState : Type 0 where
  discovered authenticating syncing active partitioned quarantined offline : PeerConnectionState

unfoldable pub connection_display : PeerConnectionState → Text
connection_display discovered = codes "DISCOVERED"
connection_display authenticating = codes "AUTHENTICATING"
connection_display syncing = codes "SYNCING"
connection_display active = codes "ACTIVE"
connection_display partitioned = codes "PARTITIONED"
connection_display quarantined = codes "QUARANTINED"
connection_display offline = codes "OFFLINE"

pub data TransportHealth : Type 0 where
  unknown healthy degraded partitioned offline : TransportHealth

unfoldable pub health_display : TransportHealth → Text
health_display unknown = codes "UNKNOWN"
health_display healthy = codes "HEALTHY"
health_display degraded = codes "DEGRADED"
health_display partitioned = codes "PARTITIONED"
health_display offline = codes "OFFLINE"

pub data MeshState : Type 0 where
  bootstrapping stable degraded partitioned recovering : MeshState

unfoldable pub mesh_display : MeshState → Text
mesh_display bootstrapping = codes "BOOTSTRAPPING"
mesh_display stable = codes "STABLE"
mesh_display degraded = codes "DEGRADED"
mesh_display partitioned = codes "PARTITIONED"
mesh_display recovering = codes "RECOVERING"

pub data ConnectionPath : Type 0 where
  unknown direct relay : ConnectionPath

unfoldable pub path_display : ConnectionPath → Text
path_display unknown = codes "UNKNOWN"
path_display direct = codes "DIRECT"
path_display relay = codes "RELAY"

pub data NetworkReachability : Type 0 where
  unknown private public : NetworkReachability

unfoldable pub reachability_display : NetworkReachability → Text
reachability_display unknown = codes "UNKNOWN"
reachability_display private = codes "PRIVATE"
reachability_display public = codes "PUBLIC"

pub data BootstrapState : Type 0 where
  configured dialing connected degraded : BootstrapState

unfoldable pub bootstrap_display : BootstrapState → Text
bootstrap_display configured = codes "CONFIGURED"
bootstrap_display dialing = codes "DIALING"
bootstrap_display connected = codes "CONNECTED"
bootstrap_display degraded = codes "DEGRADED"

pub data RelayReservationState : Type 0 where
  inactive attempting reserved failed : RelayReservationState

unfoldable pub reservation_display : RelayReservationState → Text
reservation_display inactive = codes "INACTIVE"
reservation_display attempting = codes "ATTEMPTING"
reservation_display reserved = codes "RESERVED"
reservation_display failed = codes "FAILED"

-- Tests of a state, `==` or `matches!`.
abbrev pub is_quarantined : PeerConnectionState → Bool
is_quarantined quarantined = true
is_quarantined _ = false

abbrev pub is_offline : PeerConnectionState → Bool
is_offline offline = true
is_offline _ = false

abbrev pub is_active : PeerConnectionState → Bool
is_active active = true
is_active _ = false

abbrev pub MeshState-discrete : Discrete MeshState
MeshState-discrete = hlevel

abbrev pub NetworkReachability-discrete : Discrete NetworkReachability
NetworkReachability-discrete = hlevel
