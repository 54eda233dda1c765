-- ===== src/Relay.antt =====
-- src/relay: the credits that the relay holds for the requests that it passes on.
pub mod Credit
pub mod Price
mod Escrow
mod Tests
