-- ===== src/Protocol.antt =====
-- core/protocol/src: the `void://` addresses, the frames and the VOID UI language.
pub mod Uri
pub mod Frame
pub mod Ui
mod Tests
