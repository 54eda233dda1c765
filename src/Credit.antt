-- ===== src/Credit.antt =====
-- src/credit: balances, escrow, vouchers and provider metrics over one SQLite database.
mod Tests
pub mod Types
pub mod Table
pub mod Order
pub mod Rows
pub mod Db
pub mod Supply
pub mod Run
pub mod Flow
pub mod Owner
pub mod Ledger
pub mod History
pub mod Booked
pub mod Metrics
pub mod Escrow
pub mod Budget
pub mod Remote
