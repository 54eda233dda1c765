-- ===== src/Autonomy.antt =====
-- src/autonomy: what an agent does on its own account, within the limits that its owner has set.
pub mod Tiers
pub mod Pending
pub mod Consumer
pub mod Scores
pub mod World
pub mod Request
pub mod Routing
mod Tests
