-- ===== src/Session.antt =====
-- src/session: conversations of two agents that are paid from an escrow.
mod Types
mod Escrow
pub mod Manager
mod Tests
