-- ===== src/Identity.antt =====
-- src/identity: the agents that are registered, the operators that claim them, and the people who
-- vouch for them, and the signed records of delegation and revocation.
pub mod Agents
pub mod Operators
pub mod Guarantors
pub mod Signed
pub mod Delegation
pub mod Revocation
pub mod Rotation
mod Tests
