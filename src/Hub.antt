-- ===== src/Hub.antt =====
-- src/hub-agent: agents that the registry hosts, which queue jobs for the agents behind the relay.
pub mod Jobs
pub mod World
pub mod Executor
pub mod Bridge
mod Tests
