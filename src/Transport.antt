-- ===== src/Transport.antt =====
-- The transport's records of its own life and of the mesh, core/transport/src.
pub mod Lifecycle
pub mod Topology
mod Tests
