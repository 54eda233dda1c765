-- ===== src/Credit/Ledger/Once.antt =====
-- Grants and earnings of src/credit/ledger.ts that are booked once, however often they are asked for.
use agentbnb.Prelude.{
  ℕ, ◌+◌, ◌*◌, ◌≡◌, refl, sym, ap, true, String, none, some, arith, str_eq_iff, if◌then◌else◌,
  subst,
}
use agentbnb.Credit.Types.{pos, remote_earning, bootstrap}
use agentbnb.Credit.Table.{select_first, insert, select_first-insert_new, sum_of-insert}
use agentbnb.Credit.Db.{
  Db, BalanceRow, TxRow, VoucherRow, ok, balance_of, commit, continue_with, ◌>>◌, pure,
}
use agentbnb.Credit.Supply.{supply, HasKeys, terms}
use agentbnb.Credit.Owner.Canonical.{IsCanonical, canonicalize_credit_owner-steady}
use agentbnb.Credit.Booked.{credit_to-Booked}
use agentbnb.Credit.Ledger.{
  bootstrap_agent, bootstrap_body, issue_voucher, record_earning, record_earning_body, earned_by,
  credit_to, day_ms,
}

module _ (owner : String) (amount : ℕ) (nonce : String) (now : ℕ) (db : Db)
    (canonical : IsCanonical owner db.agents) where
  record_earning_runs :
      record_earning owner amount nonce now db
      ≡ commit db (record_earning_body owner amount nonce now db)
  unfolding record_earning
  record_earning_runs =
      ap (λ q. commit q.1 (record_earning_body q.0 amount nonce now q.1))
        (canonicalize_credit_owner-steady owner now db canonical)

  -- The row of the log that a new earning adds.
  abbrev receipt : TxRow
  receipt = record {
    owner = owner;
    amount = pos amount;
    reason = remote_earning;
    reference_id = some nonce;
    created_at = now;
  }

  abbrev earned : Db
  earned =
      let paid = (credit_to owner amount now db).1 in
      record paid { transactions = insert receipt paid.transactions }

  record_earning_new :
      select_first (earned_by nonce) db.transactions ≡ none
      → record_earning owner amount nonce now db ≡ (ok tt, earned)
  unfolding record_earning_body
  record_earning_new fresh = rw (record_earning_runs, record_earning_body, fresh)

  record_earning_seen :
      (row : TxRow)
      → select_first (earned_by nonce) db.transactions ≡ some row
      → record_earning owner amount nonce now db ≡ (ok tt, db)
  unfolding record_earning_body
  record_earning_seen row seen = rw (record_earning_runs, record_earning_body, seen)

-- A receipt is paid once. With unique keys, canonical owners and a nonce that no earning has, the first call
-- adds exactly the amount to the supply; a later call with the same nonce, for any such owner and any
-- amount, succeeds and changes nothing at all.
pub record_earning_once :
    (owner other : String) (amount more : ℕ) (nonce : String) (now later : ℕ) (db : Db)
    → HasKeys db
    → IsCanonical owner db.agents
    → IsCanonical other db.agents
    → select_first (earned_by nonce) db.transactions ≡ none
    → (let (result, db') = record_earning owner amount nonce now db in
        (result ≡ ok tt)
        × (supply db' ≡ supply db + amount)
        × (record_earning other more nonce later db' ≡ (ok tt, db')))
record_earning_once owner other amount more nonce now later db keys c d fresh =
    rw (record_earning_new owner amount nonce now db c fresh) (
      refl,
      (credit_to-Booked "" (terms "" db) (supply db) db
          (record { keys = keys; has_terms = refl; supplied = refl }) owner amount now).supplied,
      record_earning_seen other more nonce later (earned owner amount nonce now db c) d
          (receipt owner amount nonce now db c)
          (select_first-insert_new (earned_by nonce) (receipt owner amount nonce now db c)
            db.transactions fresh (ground (arith, str_eq_iff nonce nonce))),
    )

-- The welcome voucher of `bootstrapAgent`.
abbrev granted_voucher : String → String → ℕ → VoucherRow
granted_voucher owner id now = record {
  id = id;
  owner = owner;
  amount = 50;
  remaining = 50;
  created_at = now;
  expires_at = now + 30 * day_ms;
  is_active = true;
}

module _ (owner : String) (amount : ℕ) (voucher_id : String) (now : ℕ) (db : Db)
    (canonical : IsCanonical owner db.agents) where
  -- The database after a first grant: the balance, its log row and the welcome voucher.
  abbrev granted : Db
  granted = record db {
    balances = insert (record { owner = owner; balance = amount; updated_at = now }) db.balances;
    transactions =
        insert
          (record {
            owner = owner;
            amount = pos amount;
            reason = bootstrap;
            reference_id = none;
            created_at = now;
          })
          db.transactions;
    vouchers = insert (granted_voucher owner voucher_id now) db.vouchers;
  }

  bootstrap_agent_runs :
      bootstrap_agent owner amount voucher_id now db
      ≡ continue_with
          (λ is_new.
            if is_new then issue_voucher owner 50 30 voucher_id now >> pure tt else pure tt)
          (commit db (bootstrap_body owner amount now db))
  unfolding bootstrap_agent
  bootstrap_agent_runs =
      ap
        (λ q.
          continue_with
            (λ is_new.
              if is_new then issue_voucher q.0 50 30 voucher_id now >> pure tt else pure tt)
            (commit q.1 (bootstrap_body q.0 amount now q.1)))
        (canonicalize_credit_owner-steady owner now db canonical)

  -- The welcome voucher of an owner that is canonical still.
  issue_voucher_runs :
      (d : Db)
      → d.agents ≡ db.agents
      → issue_voucher owner 50 30 voucher_id now d ≡ (
        ok voucher_id,
        record d { vouchers = insert (granted_voucher owner voucher_id now) d.vouchers },
      )
  unfolding issue_voucher
  issue_voucher_runs d same = rw (
    canonicalize_credit_owner-steady owner now d (subst (IsCanonical owner) (sym same) canonical),
    issue_voucher,
  )

  bootstrap_body_new :
      select_first (balance_of owner) db.balances ≡ none
      → bootstrap_body owner amount now db ≡ (ok true, record granted { vouchers = db.vouchers })
  unfolding bootstrap_body
  bootstrap_body_new fresh = ground arith

  bootstrap_agent_new :
      select_first (balance_of owner) db.balances ≡ none
      → bootstrap_agent owner amount voucher_id now db ≡ (ok tt, granted)
  bootstrap_agent_new fresh = rw (
    bootstrap_agent_runs,
    bootstrap_body_new fresh,
    issue_voucher_runs (record granted { vouchers = db.vouchers }) refl,
  )

  bootstrap_agent_seen :
      (row : BalanceRow)
      → select_first (balance_of owner) db.balances ≡ some row
      → bootstrap_agent owner amount voucher_id now db ≡ (ok tt, db)
  unfolding bootstrap_body
  bootstrap_agent_seen row seen = rw (bootstrap_agent_runs, bootstrap_body, seen)

-- A canonical owner without a balance is granted the amount and a voucher of 50 credits; a second call, with any
-- amount, voucher id and time, succeeds and changes nothing at all.
pub bootstrap_agent_once :
    (owner : String) (amount more : ℕ) (voucher_id other_id : String) (now later : ℕ) (db : Db)
    → IsCanonical owner db.agents
    → select_first (balance_of owner) db.balances ≡ none
    → (let (result, db') = bootstrap_agent owner amount voucher_id now db in
        (result ≡ ok tt)
        × (supply db' ≡ supply db + amount + 50)
        × (bootstrap_agent owner more other_id later db' ≡ (ok tt, db')))
bootstrap_agent_once owner amount more voucher_id other_id now later db c fresh =
    rw (bootstrap_agent_new owner amount voucher_id now db c fresh) (
      refl,
      omega (
        arith,
        sum_of-insert (λ r. r.balance)
            (record { owner = owner; balance = amount; updated_at = now }) db.balances,
        sum_of-insert (λ r. r.remaining) (granted_voucher owner voucher_id now) db.vouchers,
      ),
      bootstrap_agent_seen owner more other_id later (granted owner amount voucher_id now db c) c
          (record { owner = owner; balance = amount; updated_at = now })
          (select_first-insert_new (balance_of owner)
            (record { owner = owner; balance = amount; updated_at = now }) db.balances fresh
            (ground (arith, str_eq_iff owner owner))),
    )
