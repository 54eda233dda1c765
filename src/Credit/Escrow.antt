-- ===== src/Credit/Escrow.antt =====
-- src/credit/escrow.ts: credits held while a capability runs, then paid out or refunded. Each
-- operation takes the time at which it runs; `hold_escrow` also takes the random id of the escrow.
-- The rates are those of the code without the optional package `@agentbnb/core`.
pub mod Close
pub mod Refund
pub mod Confirm
pub mod Taken
pub mod Opened
pub mod Hold
pub mod Payment
pub mod Bonus
pub mod Settle
pub mod Settlement
pub mod Lifecycle
pub mod Marks
pub mod Finished
pub mod Ended
use agentbnb.Prelude.{
  ℕ, ◌+◌, ◌-◌, ◌*◌, ◌/◌, Bool, true, false, ◌&&◌, not, String, List, [], ◌∷◌, Option, none, some,
  ltb, leb, any, str_eq, if◌then◌else◌,
}
use agentbnb.Credit.Types.{
  EscrowStatus, StoredStatus, held, started, progressing, abandoned, settled, released, lifecycle,
  foreign, FundingSource, from_voucher, from_balance, TxReason, escrow_hold, settlement, refund,
  remote_settlement_confirmed, network_fee, provider_bonus, voucher_hold, escrow_not_found,
  escrow_invalid_transition, escrow_already_settled, insufficient_credits, ℤ, pos, neg,
  is_finalizable, is_terminal,
}
use agentbnb.Credit.Table.{select_first, update_where, insert}
use agentbnb.Credit.Db.{
  Db, BalanceRow, EscrowRow, VoucherRow, Action, ok, err, pure, throw, modify, transaction, ◌>>=◌,
  ◌>>◌, balance_of, escrow_at, treasury,
}
use agentbnb.Credit.Owner.{canonicalize}
use agentbnb.Credit.Ledger.{
  log_tx, open_balance, add_balance, credit_to, get_active_voucher, consume_voucher,
  get_provider_number, register_provider, get_provider_bonus,
}
use agentbnb.Credit.Metrics.{record_successful_hire}

-- `SELECT … FROM credit_escrow WHERE id = ?`.
abbrev pub find_escrow : String → Action EscrowRow
find_escrow id db = elim (select_first (escrow_at id) db.escrows) [
  | none ↦ (err escrow_not_found, db)
  | some e ↦ (ok e, db)
]

-- The row as it was read, with the owner made canonical.
unfoldable pub get_escrow_for_mutation : String → ℕ → Action EscrowRow
get_escrow_for_mutation id now = do
  e ← find_escrow id
  o ← canonicalize e.owner now
  pure (record e { owner = o })

abbrev pub same_status : EscrowStatus → EscrowStatus → Bool
same_status held held = true
same_status started started = true
same_status progressing progressing = true
same_status abandoned abandoned = true
same_status settled settled = true
same_status released released = true
same_status _ _ = false

-- `UPDATE credit_escrow SET status = ?, settled_at = ? WHERE id = ?`.
abbrev pub set_status : String → EscrowStatus → Option ℕ → Action (Unit {0})
set_status id s settled_at = modify λ db. record db {
  escrows =
      update_where (escrow_at id) (λ r. record r { status = lifecycle s; settled_at = settled_at })
        db.escrows;
}

abbrev pub transition :
    String → List EscrowStatus → EscrowStatus → ℕ → StoredStatus → Action (Unit {0})
transition id from_statuses to now foreign = throw escrow_invalid_transition
transition id from_statuses to now (lifecycle current) =
    if not (any (same_status current) from_statuses)
    then throw escrow_invalid_transition
    else if same_status current to
    then pure tt
    else set_status id to (if is_terminal (lifecycle to) then some now else none)

unfoldable pub update_escrow_status :
    String → List EscrowStatus → EscrowStatus → ℕ → Action (Unit {0})
unfolding get_escrow_for_mutation
update_escrow_status id from_statuses to now =
    transaction (do e ← get_escrow_for_mutation id now; transition id from_statuses to now e.status)

unfoldable pub assert_escrow_can_finalize : EscrowRow → Action (Unit {0})
unfolding is_finalizable is_terminal
assert_escrow_can_finalize e =
    if is_finalizable e.status
    then pure tt
    else if is_terminal e.status
    then throw escrow_already_settled
    else throw escrow_invalid_transition

abbrev pub new_escrow : String → String → ℕ → String → ℕ → FundingSource → EscrowRow
new_escrow id owner amount card_id now source = record {
  id = id;
  owner = owner;
  amount = amount;
  card_id = card_id;
  status = lifecycle held;
  created_at = now;
  settled_at = none;
  funding_source = source;
}

abbrev pub insert_escrow : EscrowRow → Action (Unit {0})
insert_escrow e = modify λ db. record db { escrows = insert e db.escrows }

unfoldable pub hold_from_voucher : String → String → ℕ → String → ℕ → VoucherRow → Action (Unit {0})
unfolding consume_voucher
hold_from_voucher id owner amount card_id now voucher = do
  consume_voucher voucher.id amount
  insert_escrow (new_escrow id owner amount card_id now from_voucher)
  log_tx owner (neg amount) voucher_hold (some id) now

-- `UPDATE … SET balance = balance - ? … WHERE owner = ? AND balance >= ?`.
abbrev pub take_balance : String → ℕ → ℕ → List BalanceRow → List BalanceRow
take_balance owner amount now rows =
    update_where (λ r. balance_of owner r && leb amount r.balance)
      (λ r. record r { balance = r.balance - amount; updated_at = now }) rows

abbrev pub covers : Option BalanceRow → ℕ → Bool
covers none amount = false
covers (some r) amount = leb amount r.balance

unfoldable pub hold_from_balance : String → String → ℕ → String → ℕ → Action (Unit {0})
hold_from_balance id owner amount card_id now db =
    if covers (select_first (balance_of owner) db.balances) amount
    then (do
      modify λ d. record d { balances = take_balance owner amount now d.balances }
      insert_escrow (new_escrow id owner amount card_id now from_balance)
      log_tx owner (neg amount) escrow_hold (some id) now)
        db
    else (err insufficient_credits, db)

abbrev pub voucher_covers : Option VoucherRow → ℕ → Bool
voucher_covers none amount = false
voucher_covers (some v) amount = leb amount v.remaining

abbrev pub hold_with : String → String → ℕ → String → ℕ → Option VoucherRow → Action (Unit {0})
hold_with id owner amount card_id now none = hold_from_balance id owner amount card_id now
hold_with id owner amount card_id now (some v) =
    if leb amount v.remaining
    then hold_from_voucher id owner amount card_id now v
    else hold_from_balance id owner amount card_id now

unfoldable pub hold_escrow : String → ℕ → String → String → ℕ → Action String
unfolding hold_from_voucher hold_from_balance get_active_voucher
hold_escrow owner amount card_id id now = do
  o ← canonicalize owner now
  transaction (do v ← get_active_voucher o now; hold_with id o amount card_id now v)
  pure id

unfoldable pub mark_escrow_started : String → ℕ → Action (Unit {0})
unfolding update_escrow_status
mark_escrow_started id = update_escrow_status id (held ∷ started ∷ []) started

unfoldable pub mark_escrow_progressing : String → ℕ → Action (Unit {0})
unfolding update_escrow_status
mark_escrow_progressing id = update_escrow_status id (held ∷ started ∷ progressing ∷ []) progressing

unfoldable pub mark_escrow_abandoned : String → ℕ → Action (Unit {0})
unfolding update_escrow_status
mark_escrow_abandoned id =
    update_escrow_status id (started ∷ progressing ∷ abandoned ∷ []) abandoned

-- `Math.floor(amount * NETWORK_FEE_RATE)` at the rate 0.05.
unfoldable pub fee_amount : ℕ → ℕ
fee_amount amount = amount / 20

-- `Math.floor(providerAmount * (bonus - 1))`, with the bonus in halves.
unfoldable pub bonus_amount : ℕ → ℕ → ℕ
bonus_amount provider_amount bonus = provider_amount * (bonus - 2) / 2

abbrev pub when : Bool → Action (Unit {0}) → Action (Unit {0})
when true m = m
when false m = pure tt

unfoldable pub pay_fee : String → ℕ → ℕ → Action (Unit {0})
pay_fee id fee now =
    when (ltb 0 fee)
      (do credit_to treasury fee now; log_tx treasury (pos fee) network_fee (some id) now)

abbrev pub or_register : String → ℕ → Option ℕ → Action (Option ℕ)
or_register owner now none = register_provider owner now
or_register owner now (some n) = pure (some n)

-- The treasury's row is opened here, and only the recipient's is changed.
unfoldable pub pay_bonus : String → String → ℕ → ℕ → ℕ → Action (Unit {0})
unfolding bonus_amount
pay_bonus id recipient provider_amount bonus now =
    when (ltb 2 bonus && ltb 0 (bonus_amount provider_amount bonus)) (do
      modify λ db. record db { balances = open_balance treasury 0 now db.balances }
      modify λ db. record db {
        balances = add_balance recipient (bonus_amount provider_amount bonus) now db.balances;
      }
      log_tx recipient (pos (bonus_amount provider_amount bonus)) provider_bonus (some id) now)

-- `get_provider_bonus` of the number; a missing number compares as no bonus.
abbrev pub bonus_of : Option ℕ → ℕ
bonus_of none = 2
bonus_of (some n) = get_provider_bonus n

-- What `settleEscrow` does for an escrow that can be finalised.
unfoldable pub pay_out : String → String → EscrowRow → ℕ → Action (Unit {0})
unfolding fee_amount pay_fee pay_bonus
pay_out id recipient e now = do
  let fee = fee_amount e.amount
  let provider_amount = e.amount - fee
  credit_to recipient provider_amount now
  pay_fee id fee now
  set_status id settled (some now)
  log_tx recipient (pos provider_amount) settlement (some id) now
  known ← get_provider_number recipient now
  number ← or_register recipient now known
  pay_bonus id recipient provider_amount (bonus_of number) now
  record_successful_hire recipient e.owner now

unfoldable pub settle_escrow : String → String → ℕ → Action (Unit {0})
unfolding get_escrow_for_mutation assert_escrow_can_finalize pay_out
settle_escrow id recipient_owner now = do
  r ← canonicalize recipient_owner now
  transaction
      (do e ← get_escrow_for_mutation id now; assert_escrow_can_finalize e; pay_out id r e now)

-- What `releaseEscrow` does for an escrow that can be finalised.
unfoldable pub pay_back : String → EscrowRow → ℕ → Action (Unit {0})
pay_back id e now = do
  modify λ db. record db { balances = add_balance e.owner e.amount now db.balances }
  set_status id released (some now)
  log_tx e.owner (pos e.amount) refund (some id) now

unfoldable pub release_escrow : String → ℕ → Action (Unit {0})
unfolding get_escrow_for_mutation assert_escrow_can_finalize pay_back
release_escrow id now =
    transaction
      (do e ← get_escrow_for_mutation id now; assert_escrow_can_finalize e; pay_back id e now)

unfoldable pub confirm_escrow_debit : String → ℕ → Action (Unit {0})
unfolding get_escrow_for_mutation assert_escrow_can_finalize
confirm_escrow_debit id now = transaction (do
  e ← get_escrow_for_mutation id now
  assert_escrow_can_finalize e
  set_status id settled (some now)
  log_tx e.owner (pos 0) remote_settlement_confirmed (some id) now)

-- `getEscrowStatus`; the columns that it leaves out are kept.
unfoldable pub get_escrow_status : String → ℕ → Action (Option EscrowRow)
get_escrow_status id now db = elim (select_first (escrow_at id) db.escrows) [
  | none ↦ (ok none, db)
  | some e ↦ (do o ← canonicalize e.owner now; pure (some (record e { owner = o }))) db
]
