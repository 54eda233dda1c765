-- ===== src/Relay/Escrow.antt =====
-- src/relay/relay-escrow.ts: escrows that an agent opens and settles over the relay. The check of a
-- signature is a parameter.
pub mod Once
use agentbnb.Prelude.{
  str_append, ℕ, ◌-◌, Bool, true, false, ◌&&◌, not, String, Option, none, some, if◌then◌else◌,
}
use agentbnb.Credit.Types.{CreditError, is_finalizable}
use agentbnb.Credit.Table.{select_first}
use agentbnb.Credit.Db.{Db, EscrowRow, Action, Result, ok, err, pure, ◌>>=◌, ◌>>◌, escrow_at}
use agentbnb.Credit.Ledger.{get_balance}
use agentbnb.Credit.Escrow.{hold_escrow, settle_escrow, release_escrow, fee_amount}

pub record EscrowHoldResult : Type 0 where
  pub escrow_id : String
  pub hold_amount : ℕ
  pub consumer_remaining : ℕ

pub record EscrowSettleResult : Type 0 where
  pub escrow_id : String
  pub provider_earned : ℕ
  pub network_fee : ℕ
  pub consumer_remaining : ℕ
  pub provider_balance : ℕ

-- The data that a signature covers.
pub data SignData : Type 0 where
  hold_data : String → String → String → ℕ → String → SignData
  settle_data : String → Bool → String → SignData

pub record Signature : Type 0 where
  pub signature : String
  pub public_key_hex : String

pub data RelayError : Type 0 where
  invalid_signature : RelayError
  not_found_or_settled : String → RelayError
  credit_error : CreditError → RelayError

pub data Answer (A : Type 0) : Type 0 where
  answer : A → Answer A
  failed : RelayError → Answer A

abbrev pub answer_of : {A : Type 0} → Result A × Db → Answer A × Db
answer_of (ok a, db) = (answer a, db)
answer_of (err e, db) = (failed (credit_error e), db)

-- The escrow with this id, if it can still be settled.
abbrev pub open_at : String → EscrowRow → Bool
open_at id r = escrow_at id r && is_finalizable r.status

-- What settling an open escrow books, with the amounts of the answer.
unfoldable pub settle_open : String → Bool → String → EscrowRow → ℕ → Action EscrowSettleResult
settle_open escrow_id true provider e now = do
  settle_escrow escrow_id provider now
  c ← get_balance e.owner now
  p ← get_balance provider now
  pure (record {
    escrow_id = escrow_id;
    provider_earned = e.amount - fee_amount e.amount;
    network_fee = fee_amount e.amount;
    consumer_remaining = c;
    provider_balance = p;
  })
settle_open escrow_id false provider e now = do
  release_escrow escrow_id now
  c ← get_balance e.owner now
  p ← get_balance provider now
  pure (record {
    escrow_id = escrow_id;
    provider_earned = 0;
    network_fee = 0;
    consumer_remaining = c;
    provider_balance = p;
  })

unfoldable pub settle_found :
    String → Bool → String → ℕ → Option EscrowRow → Db → Answer EscrowSettleResult × Db
unfolding settle_open
settle_found escrow_id success provider now none db = (failed (not_found_or_settled escrow_id), db)
settle_found escrow_id success provider now (some e) db =
    answer_of (settle_open escrow_id success provider e now db)

module _ (verify : SignData → Signature → Bool) where
  -- A request without a signature, a key or a consumer to check it for is accepted: it has no
  -- `Signature`.
  abbrev pub is_refused : SignData → Option Signature → Bool
  is_refused d none = false
  is_refused d (some s) = not (verify d s)

  unfoldable pub process_escrow_hold :
      String
      → String
      → String
      → ℕ
      → String
      → Option Signature
      → String
      → ℕ
      → Db
      → Answer EscrowHoldResult × Db
  process_escrow_hold consumer provider skill amount request_id signed id now db =
      if is_refused (hold_data consumer provider skill amount request_id) signed
      then (failed invalid_signature, db)
      else answer_of (
          (do
            e ← hold_escrow consumer amount (str_append provider (str_append ":" skill)) id now
            b ← get_balance consumer now
            pure (record { escrow_id = e; hold_amount = amount; consumer_remaining = b }))
            db)

  unfoldable pub process_escrow_settle :
      String → Bool → String → Option Signature → String → ℕ → Db → Answer EscrowSettleResult × Db
  unfolding settle_found
  process_escrow_settle escrow_id success provider signed consumer now db =
      if is_refused (settle_data escrow_id success consumer) signed
      then (failed invalid_signature, db)
      else settle_found escrow_id success provider now (select_first (open_at escrow_id) db.escrows)
          db

  unfoldable pub settle_with_network_fee : String → String → ℕ → Db → Answer EscrowSettleResult × Db
  unfolding process_escrow_settle
  settle_with_network_fee escrow_id provider now db =
      process_escrow_settle escrow_id true provider none "" now db
