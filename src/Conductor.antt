-- ===== src/Conductor.antt =====
-- src/conductor: what an orchestration of several sub-tasks may cost.
mod Tests
pub mod Json
mod Kahn
mod Validator
mod Waves
mod Orchestrator
pub mod Budget
pub mod Teams
