-- ===== src/Credit/Ledger.antt =====
-- src/credit/ledger.ts: balances, providers, vouchers and earnings. Each operation takes the time at
-- which it runs and the random ids that it draws.
pub mod Once
pub mod Numbers
use agentbnb.Prelude.{
  ℕ, suc, ◌+◌, ◌-◌, ◌*◌, max, Bool, true, false, ◌&&◌, String, List, [], ◌∷◌, ◌++◌, Option, none,
  some, ltb, leb, str_eq, if◌then◌else◌,
}
use agentbnb.Credit.Types.{TxReason, bootstrap, remote_earning, ℤ, pos}
use agentbnb.Credit.Table.{select_first, select_all, update_where, insert, insert_or_ignore}
use agentbnb.Credit.Db.{
  Db, BalanceRow, TxRow, ProviderRow, VoucherRow, Action, ok, pure, modify, transaction, ◌>>=◌,
  ◌>>◌, balance_of, provider_of,
}
use agentbnb.Credit.Owner.{canonicalize, migrate_credit_owner_data, canonicalize_credit_owner}

-- `INSERT INTO credit_transactions`.
abbrev pub log_tx : String → ℤ → TxReason → Option String → ℕ → Action (Unit {0})
log_tx owner amount reason reference now = modify λ db. record db {
  transactions =
      insert
        (record {
          owner = owner;
          amount = amount;
          reason = reason;
          reference_id = reference;
          created_at = now;
        })
        db.transactions;
}

-- `INSERT OR IGNORE INTO credit_balances`.
abbrev pub open_balance : String → ℕ → ℕ → List BalanceRow → List BalanceRow
open_balance owner balance now rows =
    insert_or_ignore (balance_of owner)
      (record { owner = owner; balance = balance; updated_at = now }) rows

-- `UPDATE credit_balances SET balance = balance + ? … WHERE owner = ?`.
abbrev pub add_balance : String → ℕ → ℕ → List BalanceRow → List BalanceRow
add_balance owner amount now rows =
    update_where (balance_of owner)
      (λ r. record r { balance = r.balance + amount; updated_at = now }) rows

-- Both statements, as the code pairs them.
abbrev pub credit_to : String → ℕ → ℕ → Action (Unit {0})
credit_to owner amount now = modify λ db. record db {
  balances = add_balance owner amount now (open_balance owner 0 now db.balances);
}

abbrev pub day_ms : ℕ
day_ms = 24 * 60 * 60 * 1000

unfoldable pub issue_voucher : String → ℕ → ℕ → String → ℕ → Action String
issue_voucher owner amount days_valid id now = do
  o ← canonicalize owner now
  modify λ db. record db {
    vouchers =
        insert
          (record {
            id = id;
            owner = o;
            amount = amount;
            remaining = amount;
            created_at = now;
            expires_at = now + days_valid * day_ms;
            is_active = true;
          })
          db.vouchers;
  }
  pure id

-- The transaction of `bootstrapAgent`: whether the balance row is new.
unfoldable pub bootstrap_body : String → ℕ → ℕ → Action Bool
bootstrap_body o amount now db = elim (select_first (balance_of o) db.balances) [
  | some r ↦ (ok false, db)
  | none ↦
      (do
        modify λ d. record d { balances = open_balance o amount now d.balances }
        log_tx o (pos amount) bootstrap none now
        pure true)
        db
]

unfoldable pub bootstrap_agent : String → ℕ → String → ℕ → Action (Unit {0})
unfolding bootstrap_body issue_voucher
bootstrap_agent owner amount voucher_id now = do
  o ← canonicalize owner now
  is_new ← transaction (bootstrap_body o amount now)
  if is_new then issue_voucher o 50 30 voucher_id now >> pure tt else pure tt

abbrev pub snapshot : Option BalanceRow → ℕ × Option ℕ
snapshot none = (0, none)
snapshot (some r) = (r.balance, some r.updated_at)

-- The balance and the time of its last write.
unfoldable pub get_balance_snapshot : String → ℕ → Action (ℕ × Option ℕ)
get_balance_snapshot owner now = do
  o ← canonicalize owner now
  λ db. (ok (snapshot (select_first (balance_of o) db.balances)), db)

unfoldable pub get_balance : String → ℕ → Action ℕ
unfolding get_balance_snapshot
get_balance owner now = do s ← get_balance_snapshot owner now; pure s.0

-- `SELECT MAX(provider_number)`, 0 for the empty table.
unfoldable pub max_provider_number : List ProviderRow → ℕ
max_provider_number [] = 0
max_provider_number (r ∷ rs) = max r.provider_number (max_provider_number rs)

abbrev pub number_of : Option ProviderRow → Option ℕ
number_of none = none
number_of (some r) = some r.provider_number

abbrev pub enroll : String → ℕ → List ProviderRow → List ProviderRow
enroll o now rows =
    insert_or_ignore (provider_of o)
      (record { owner = o; provider_number = max_provider_number rows + 1; registered_at = now })
      rows

-- The row that is read back is there: it was there before or has just been written. The model
-- returns `none` where the code would read a field of a missing row.
unfoldable pub register_provider : String → ℕ → Action (Option ℕ)
unfolding max_provider_number
register_provider owner now = do
  o ← canonicalize owner now
  modify λ db. record db { providers = enroll o now db.providers }
  λ db. (ok (number_of (select_first (provider_of o) db.providers)), db)

unfoldable pub get_provider_number : String → ℕ → Action (Option ℕ)
get_provider_number owner now = do
  o ← canonicalize owner now
  λ db. (ok (number_of (select_first (provider_of o) db.providers)), db)

-- The bonus multiplier in halves: 4 for 2.0, 3 for 1.5, 2 for 1.0.
unfoldable pub get_provider_bonus : ℕ → ℕ
get_provider_bonus n = if leb n 50 then 4 else if leb n 200 then 3 else 2

abbrev pub is_usable : String → ℕ → VoucherRow → Bool
is_usable o now r = str_eq r.owner o && r.is_active && ltb 0 r.remaining && ltb now r.expires_at

-- `ORDER BY created_at ASC LIMIT 1`: the first of the earliest.
unfoldable pub earliest : List VoucherRow → Option VoucherRow
earliest [] = none
earliest (r ∷ rs) = elim (earliest rs) [
  | none ↦ some r
  | some s ↦ if leb r.created_at s.created_at then some r else some s
]

unfoldable pub get_active_voucher : String → ℕ → Action (Option VoucherRow)
unfolding earliest
get_active_voucher owner now = do
  o ← canonicalize owner now
  λ db. (ok (earliest (select_all (is_usable o now) db.vouchers)), db)

unfoldable pub consume_voucher : String → ℕ → Action (Unit {0})
consume_voucher voucher_id amount = modify λ db. record db {
  vouchers =
      update_where (λ r. str_eq r.id voucher_id && leb amount r.remaining)
        (λ r. record r { remaining = r.remaining - amount }) db.vouchers;
}

abbrev is_remote_earning : TxReason → Bool
is_remote_earning remote_earning = true
is_remote_earning _ = false

abbrev pub earned_by : String → TxRow → Bool
earned_by nonce r =
    (elim r.reference_id [ none ↦ false | some n ↦ str_eq n nonce ]) && is_remote_earning r.reason

-- The transaction of `recordEarning`.
unfoldable pub record_earning_body : String → ℕ → String → ℕ → Action (Unit {0})
record_earning_body o amount nonce now db = elim (select_first (earned_by nonce) db.transactions) [
  | some r ↦ (ok tt, db)
  | none ↦ (credit_to o amount now >> log_tx o (pos amount) remote_earning (some nonce) now) db
]

unfoldable pub record_earning : String → ℕ → String → ℕ → Action (Unit {0})
unfolding record_earning_body
record_earning owner amount receipt_nonce now = do
  o ← canonicalize owner now
  transaction (record_earning_body o amount receipt_nonce now)

unfoldable pub migrate_owner : String → String → ℕ → Action (Unit {0})
migrate_owner old new now =
    if str_eq old new
    then pure tt
    else do n ← canonicalize new now; modify (migrate_credit_owner_data old n now)
