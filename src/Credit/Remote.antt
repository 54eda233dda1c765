-- ===== src/Credit/Remote.antt =====
-- src/credit/settlement.ts: settlement between two machines. The provider books the earning of a
-- signed receipt in its own database, and the requester confirms or releases its escrow.
pub mod Fee
use agentbnb.Prelude.{ℕ, ◌-◌, String}
use agentbnb.Credit.Db.{Action}
use agentbnb.Credit.Ledger.{record_earning}
use agentbnb.Credit.Escrow.{fee_amount, confirm_escrow_debit, release_escrow}

-- The fields of a receipt that settlement reads; the card id goes to an argument that the ledger ignores.
pub record Receipt : Type 0 where
  pub amount : ℕ
  pub nonce : String

unfoldable pub settle_provider_earning : String → Receipt → ℕ → Action (Unit {0})
settle_provider_earning provider_owner receipt now =
    record_earning provider_owner (receipt.amount - fee_amount receipt.amount) receipt.nonce now

unfoldable pub settle_requester_escrow : String → ℕ → Action (Unit {0})
settle_requester_escrow id now = confirm_escrow_debit id now

unfoldable pub release_requester_escrow : String → ℕ → Action (Unit {0})
release_requester_escrow id now = release_escrow id now
