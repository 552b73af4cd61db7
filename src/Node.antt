-- ===== src/Node.antt =====
-- The chat of core/transport/src/node.rs.
pub mod Event
pub mod State
pub mod Session
pub mod Negotiation
pub mod Receive
pub mod Rooms
pub mod Command
pub mod Handle
pub mod Admit
pub mod Authentic
pub mod Sent
pub mod Delivery
pub mod Handshake
pub mod Agreement
pub mod Crossed
mod Samples
mod Tests
