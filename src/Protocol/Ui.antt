-- ===== src/Protocol/Ui.antt =====
-- VOID UI documents: core/protocol/src/ui.rs.
pub mod Syntax
pub mod Outcome
pub mod Lexer
pub mod Parser
pub mod Printer
pub mod RoundTrip
