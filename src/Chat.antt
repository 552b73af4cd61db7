-- ===== src/Chat.antt =====
-- The chat application, apps/void-chat/src/lib.rs.
pub mod Error
pub mod Replay
pub mod Message
pub mod Unsigned
pub mod Signed
pub mod Cipher
pub mod Topic
pub mod Inbox
pub mod Rooms
mod Tests
