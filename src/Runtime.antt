-- ===== src/Runtime.antt =====
-- The runtime shell, core/runtime/src/lib.rs: the permissions of its surfaces.
pub mod State
pub mod Permissions
pub mod Decisions
mod Tests
