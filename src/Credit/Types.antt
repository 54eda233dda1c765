-- ===== src/Credit/Types.antt =====
-- The enumerations of src/credit/escrow.ts and src/credit/ledger.ts.
use agentbnb.Prelude.{Bool, true, false}
pub use agentbnb.Prelude.{ℤ, pos, neg}

-- `EscrowStatus`.
pub data EscrowStatus : Type 0 where
  held started progressing abandoned settled released : EscrowStatus

-- What the column holds: a status of the lifecycle, or a text that is none.
pub data StoredStatus : Type 0 where
  lifecycle : EscrowStatus → StoredStatus
  foreign : StoredStatus

pub data FundingSource : Type 0 where
  from_voucher from_balance : FundingSource

-- The reasons of credit transactions.
pub data TxReason : Type 0 where
  bootstrap escrow_hold settlement refund remote_earning remote_settlement_confirmed : TxReason
  network_fee provider_bonus voucher_hold : TxReason

-- The codes of `AgentBnBError` that src/credit throws.
pub data CreditError : Type 0 where
  escrow_not_found escrow_invalid_transition escrow_already_settled insufficient_credits :
      CreditError

-- `FINALIZABLE_ESCROW_STATUSES.has`.
unfoldable pub is_finalizable : StoredStatus → Bool
is_finalizable (lifecycle held) = true
is_finalizable (lifecycle started) = true
is_finalizable (lifecycle progressing) = true
is_finalizable (lifecycle abandoned) = true
is_finalizable (lifecycle settled) = false
is_finalizable (lifecycle released) = false
is_finalizable foreign = false

-- `TERMINAL_ESCROW_STATUSES.has`.
unfoldable pub is_terminal : StoredStatus → Bool
is_terminal (lifecycle settled) = true
is_terminal (lifecycle released) = true
is_terminal (lifecycle held) = false
is_terminal (lifecycle started) = false
is_terminal (lifecycle progressing) = false
is_terminal (lifecycle abandoned) = false
is_terminal foreign = false
