-- ===== src/Auth.antt =====
-- src/auth: the UCAN tokens that delegate access to resources.
mod Tests
pub mod Resources
pub mod Replay
pub mod Revocation
pub mod Token
pub mod Delegation
