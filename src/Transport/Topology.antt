-- ===== src/Transport/Topology.antt =====
-- The mesh as a node sees it, core/transport/src/topology.rs.
pub mod Kinds
pub mod Records
pub mod Peers
pub mod Sessions
pub mod Mesh
pub mod Reachability
pub mod Network
pub mod Locality
pub mod Quarantine
pub mod Partition
pub mod Addresses
pub mod Bootstrap
pub mod Answers
pub mod Disconnect
