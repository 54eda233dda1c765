-- ===== src/Credit/Escrow/Opened.antt =====
-- What a hold of src/credit/escrow.ts does to the database in which it runs: from the chosen voucher,
-- or else from the balance.
use agentbnb.Prelude.{
  ℕ, ◌+◌, ◌-◌, ◌≡◌, refl, ◌⊎◌, inl, inr, Bool, true, false, ◌&&◌, String, Option, none, some, arith,
  leb, str_eq, str_eq_iff, Bool-cases, subst, ap, if◌then◌else◌,
}
use agentbnb.Credit.Types.{
  lifecycle, held, is_finalizable, insufficient_credits, escrow_hold, FundingSource, from_balance,
  from_voucher, neg,
}
use agentbnb.Credit.Table.{
  select_first, select_all, count, insert, sum_of-insert, count-insert, select_first-insert_new,
  count-update_where, select_first-none, column,
}
use agentbnb.Credit.Db.{Db, VoucherRow, err, balance_of, escrow_at, voucher_at}
use agentbnb.Credit.Supply.{in_escrow, open_amount, supply, HasKeys, IsKeyedEscrow, terms, terms_of}
use agentbnb.Credit.Run.{Does}
use agentbnb.Credit.Ledger.{earliest, consume_voucher}
use agentbnb.Credit.Escrow.Taken.{take_balance-total, consumed-total}
use agentbnb.Credit.Escrow.{
  new_escrow, hold_from_voucher, hold_from_balance, take_balance, covers, voucher_covers, hold_with,
}

-- Whether a voucher, or else the balance, covers the amount.
abbrev pub affordable : String → ℕ → Option VoucherRow → Db → Bool
affordable o amount v db =
    if voucher_covers v amount
    then true
    else covers (select_first (balance_of o) db.balances) amount

-- A successful hold of an amount for an owner: a new escrow, out of the same supply.
pub record Holds (id o : String) (amount now : ℕ) (before after : Db) : Type 0 where
  pub keys : HasKeys after
  pub has_terms : terms id after ≡ some (amount, lifecycle held)
  pub same_supply : supply after ≡ supply before
  pub same_agents : after.agents ≡ before.agents
  pub taken :
      (after.balances ≡ before.balances)
      ⊎ (after.balances ≡ take_balance o amount now before.balances)

module _ (id o : String) (amount : ℕ) (card_id : String) (now : ℕ) (db : Db) (keys : HasKeys db)
    (fresh : select_first (escrow_at id) db.escrows ≡ none) where
  insert-IsKeyed :
      (source : FundingSource)
      → IsKeyedEscrow (insert (new_escrow id o amount card_id now source) db.escrows)
  insert-IsKeyed source x = elim (Bool-cases (str_eq id x)) [
    | inl same ↦ ground (
      arith,
      subst (λ y. count (escrow_at y) db.escrows ≡ 0) ((str_eq_iff id x).0 same)
          (select_first-none (escrow_at id) db.escrows fresh),
      count-insert (escrow_at x) (new_escrow id o amount card_id now source) db.escrows,
    )
    | inr other ↦ ground (
      arith,
      keys.escrows x,
      count-insert (escrow_at x) (new_escrow id o amount card_id now source) db.escrows,
    )
  ]

  insert-terms :
      (source : FundingSource)
      → select_first (escrow_at id) (insert (new_escrow id o amount card_id now source) db.escrows)
        ≡ some (new_escrow id o amount card_id now source)
  insert-terms source =
      select_first-insert_new (escrow_at id) (new_escrow id o amount card_id now source) db.escrows
        fresh (ground (arith, str_eq_iff id id))

  insert-in_escrow :
      (source : FundingSource)
      → in_escrow (insert (new_escrow id o amount card_id now source) db.escrows)
        ≡ in_escrow db.escrows + amount
  unfolding is_finalizable
  insert-in_escrow source =
      sum_of-insert open_amount (new_escrow id o amount card_id now source) db.escrows

  hold_from_balance-Holds :
      covers (select_first (balance_of o) db.balances) amount ≡ true
      → Does (hold_from_balance id o amount card_id now) db (λ _. Holds id o amount now db)
  unfolding hold_from_balance
  hold_from_balance-Holds h = record {
    value = tt;
    after = record db {
      balances = take_balance o amount now db.balances;
      escrows = insert (new_escrow id o amount card_id now from_balance) db.escrows;
      transactions =
          insert
            (record {
              owner = o;
              amount = neg amount;
              reason = escrow_hold;
              reference_id = some id;
              created_at = now;
            })
            db.transactions;
    };
    runs = ground arith;
    holds = record {
      keys = record {
        balances = λ x. omega (
          arith,
          keys.balances x,
          count-update_where (λ r. balance_of o r && leb amount r.balance) (balance_of x)
              (λ r. record r { balance = r.balance - amount; updated_at = now }) db.balances
              (λ r h. refl),
        );
        escrows = insert-IsKeyed from_balance;
        vouchers = keys.vouchers;
      };
      has_terms = ap (column terms_of) (insert-terms from_balance);
      same_supply = omega (
        arith,
        insert-in_escrow from_balance,
        take_balance-total o amount now db.balances keys.balances h,
      );
      same_agents = refl;
      taken = inr refl;
    };
  }

  hold_from_voucher-Holds :
      (p : VoucherRow → Bool) (v : VoucherRow)
      → earliest (select_all p db.vouchers) ≡ some v
      → leb amount v.remaining ≡ true
      → Does (hold_from_voucher id o amount card_id now v) db (λ _. Holds id o amount now db)
  unfolding hold_from_voucher consume_voucher
  hold_from_voucher-Holds p v e h = record {
    value = tt;
    after = _;
    runs = refl;
    holds = record {
      keys = record {
        balances = keys.balances;
        escrows = insert-IsKeyed from_voucher;
        vouchers = λ x. omega (
          arith,
          keys.vouchers x,
          count-update_where (λ r. str_eq r.id v.id && leb amount r.remaining) (voucher_at x)
              (λ r. record r { remaining = r.remaining - amount }) db.vouchers (λ r h. refl),
        );
      };
      has_terms = ap (column terms_of) (insert-terms from_voucher);
      same_supply = omega (
        arith,
        insert-in_escrow from_voucher,
        consumed-total p v amount db.vouchers keys.vouchers e h,
      );
      same_agents = refl;
      taken = inl refl;
    };
  }

  pub hold_with-Holds :
      (p : VoucherRow → Bool) (v : Option VoucherRow)
      → earliest (select_all p db.vouchers) ≡ v
      → affordable o amount v db ≡ true
      → Does (hold_with id o amount card_id now v) db (λ _. Holds id o amount now db)
  hold_with-Holds p none e h = hold_from_balance-Holds h
  hold_with-Holds p (some v) e h = elim (Bool-cases (leb amount v.remaining)) [
    | inl enough ↦
        let done = hold_from_voucher-Holds p v e enough in
        record {
          value = tt;
          after = done.after;
          runs = rw (enough, hold_with) done.runs;
          holds = done.holds;
        }
    | inr short ↦
        let done = hold_from_balance-Holds (ground arith) in
        record {
          value = tt;
          after = done.after;
          runs = rw (short, hold_with) done.runs;
          holds = done.holds;
        }
  ]

  pub hold_with_refused :
      (v : Option VoucherRow)
      → affordable o amount v db ≡ false
      → hold_with id o amount card_id now v db ≡ (err insufficient_credits, db)
  unfolding hold_from_balance
  hold_with_refused none h = ground arith
  hold_with_refused (some v) h = ground arith

pub column-none : {R A : Type 0} (f : R → A) (row : Option R) → column f row ≡ none → row ≡ none
column-none f none h = refl
column-none f (some r) h = absurd (cc)
