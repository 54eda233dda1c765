-- ===== src/Credit/Booked.antt =====
-- The bookkeeping of a database between two steps of a payment: its keys, the terms of one escrow, and
-- the supply. Each statement that the payments of src/credit/escrow.ts run moves it by a known amount.
use agentbnb.Prelude.{
  ℕ, ◌+◌, ◌≤◌, ◌≡◌, refl, ◌∙◌, inl, inr, String, List, Option, arith, ltb, str_eq, str_eq_iff,
  Bool-cases, Option-cases, if◌then◌else◌, subst,
}
use agentbnb.Credit.Types.{StoredStatus, TxReason, ℤ}
use agentbnb.Credit.Table.{
  select_first, count, sum_of-insert, count-insert, select_first-none, select_first-some,
  sum_of-update_where, update_where_none, count-update_where,
}
use agentbnb.Credit.Db.{Db, BalanceRow, balance_of}
use agentbnb.Credit.Supply.{total_balance, supply, HasKeys, IsKeyed, terms}
use agentbnb.Credit.Owner.{canonicalize_credit_owner}
use agentbnb.Credit.Owner.Conserved.{canonicalize_credit_owner-Keeps}
use agentbnb.Credit.Ledger.{open_balance, add_balance, credit_to, log_tx}

pub record Booked (id : String) (t : Option (ℕ × StoredStatus)) (n : ℕ) (db : Db) : Type 0 where
  pub keys : HasKeys db
  pub has_terms : terms id db ≡ t
  pub supplied : supply db ≡ n

-- What an update of a balance adds to the total: nothing, where the owner has no row.
pub add_balance-total :
    (o : String) (amount now : ℕ) (rows : List BalanceRow)
    → IsKeyed rows
    → total_balance (add_balance o amount now rows)
      ≡ total_balance rows + (if ltb 0 (count (balance_of o) rows) then amount else 0)
add_balance-total o amount now rows keyed = elim (Bool-cases (ltb 0 (count (balance_of o) rows))) [
  | inl has ↦ ground (
    arith,
    keyed o,
    sum_of-update_where (balance_of o)
        (λ r. record r { balance = r.balance + amount; updated_at = now }) (λ r. r.balance) 0 amount
        rows (λ r h. omega arith),
  )
  | inr lacks ↦ ground (
    arith,
    update_where_none (balance_of o)
        (λ r. record r { balance = r.balance + amount; updated_at = now }) rows,
  )
]

pub add_balance-IsKeyed :
    (o : String) (amount now : ℕ) (rows : List BalanceRow)
    → IsKeyed rows
    → IsKeyed (add_balance o amount now rows)
add_balance-IsKeyed o amount now rows keyed x = omega (
  arith,
  keyed x,
  count-update_where (balance_of o) (balance_of x)
      (λ r. record r { balance = r.balance + amount; updated_at = now }) rows (λ r h. refl),
)

-- Opening an empty balance leaves the total and the key, and gives the owner a row.
pub open_balance-total :
    (o : String) (now : ℕ) (rows : List BalanceRow)
    → total_balance (open_balance o 0 now rows) ≡ total_balance rows
open_balance-total o now rows = elim (Option-cases (select_first (balance_of o) rows)) [
  | inl e ↦ ground (
    arith,
    sum_of-insert (λ r. r.balance) (record { owner = o; balance = 0; updated_at = now }) rows,
  )
  | inr (r, e) ↦ ground arith
]

pub open_balance-IsKeyed :
    (o : String) (amount now : ℕ) (rows : List BalanceRow)
    → IsKeyed rows
    → IsKeyed (open_balance o amount now rows)
open_balance-IsKeyed o amount now rows keyed x =
    elim (Option-cases (select_first (balance_of o) rows)) [
      | inl e ↦ elim (Bool-cases (str_eq o x)) [
        | inl same ↦ ground (
          arith,
          subst (λ y. count (balance_of y) rows ≡ 0) ((str_eq_iff o x).0 same)
              (select_first-none (balance_of o) rows e),
          count-insert (balance_of x) (record { owner = o; balance = amount; updated_at = now })
              rows,
        )
        | inr other ↦ ground (
          arith,
          keyed x,
          count-insert (balance_of x) (record { owner = o; balance = amount; updated_at = now })
              rows,
        )
      ]
      | inr (r, e) ↦ ground (arith, keyed x)
    ]

pub open_balance-has_row :
    (o : String) (amount now : ℕ) (rows : List BalanceRow)
    → 1 ≤ count (balance_of o) (open_balance o amount now rows)
open_balance-has_row o amount now rows = elim (Option-cases (select_first (balance_of o) rows)) [
  | inl e ↦ ground (
    arith,
    str_eq_iff o o,
    count-insert (balance_of o) (record { owner = o; balance = amount; updated_at = now }) rows,
  )
  | inr (r, e) ↦ ground (arith, select_first-some (balance_of o) rows r e)
]

pub open_balance-keeps_row :
    (o x : String) (amount now : ℕ) (rows : List BalanceRow)
    → count (balance_of x) rows ≤ count (balance_of x) (open_balance o amount now rows)
open_balance-keeps_row o x amount now rows =
    elim (Option-cases (select_first (balance_of o) rows)) [
      | inl e ↦ ground (
        arith,
        count-insert (balance_of x) (record { owner = o; balance = amount; updated_at = now }) rows,
      )
      | inr (r, e) ↦ ground arith
    ]

pub count-add_balance :
    (o x : String) (amount now : ℕ) (rows : List BalanceRow)
    → count (balance_of x) (add_balance o amount now rows) ≡ count (balance_of x) rows
count-add_balance o x amount now rows =
    count-update_where (balance_of o) (balance_of x)
      (λ r. record r { balance = r.balance + amount; updated_at = now }) rows (λ r h. refl)

module _ (id : String) (t : Option (ℕ × StoredStatus)) (n : ℕ) (db : Db)
    (b : Booked id t n db) where
  -- A new transaction row changes none of it.
  pub log_tx-Booked :
      (o : String) (a : ℤ) (reason : TxReason) (ref : Option String) (now : ℕ)
      → Booked id t n (log_tx o a reason ref now db).1
  log_tx-Booked o a reason ref now = record {
    keys = record {
      balances = b.keys.balances;
      escrows = b.keys.escrows;
      vouchers = b.keys.vouchers;
    };
    has_terms = b.has_terms;
    supplied = b.supplied;
  }

  -- Crediting an owner adds the amount, whether or not there was a row.
  pub credit_to-Booked :
      (o : String) (amount now : ℕ) → Booked id t (n + amount) (credit_to o amount now db).1
  credit_to-Booked o amount now =
      let opened = open_balance-IsKeyed o 0 now db.balances b.keys.balances in
      record {
        keys = record {
          balances = add_balance-IsKeyed o amount now _ opened;
          escrows = b.keys.escrows;
          vouchers = b.keys.vouchers;
        };
        has_terms = b.has_terms;
        supplied = ground (
          arith,
          b.supplied,
          add_balance-total o amount now (open_balance o 0 now db.balances) opened,
          open_balance-total o now db.balances,
          open_balance-has_row o 0 now db.balances,
        );
      }

  -- The resolution of an owner changes none of it.
  pub canonicalize_credit_owner-Booked :
      (o : String) (now : ℕ) → Booked id t n (canonicalize_credit_owner o now db).1
  canonicalize_credit_owner-Booked o now =
      let kept = canonicalize_credit_owner-Keeps o now db b.keys in
      record {
        keys = kept.keys;
        has_terms = kept.same_terms id ∙ b.has_terms;
        supplied = kept.same_supply ∙ b.supplied;
      }
