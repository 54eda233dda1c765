-- ===== src/Credit/Budget/Reserve.antt =====
-- The reserve holds: spending that `canSpend` (src/credit/budget.ts) permits leaves it in the balance.
use agentbnb.Prelude.{
  ℕ, ◌+◌, ◌-◌, ◌≤◌, ◌<◌, ◌≡◌, refl, sym, ap, ◌∙◌, ◌⊎◌, inl, inr, true, String, List, [], ◌∷◌,
  Option, none, arith, ltb, leb, Bool-cases, Option-cases, subst, if◌then◌else◌,
}
use agentbnb.Credit.Table.{select_first, select_all, update_where}
use agentbnb.Credit.Db.{
  Db, BalanceRow, VoucherRow, ok, pure, continue_with, commit, balance_of, ◌>>=◌,
}
use agentbnb.Credit.Supply.{HasKeys, terms, terms_of}
use agentbnb.Credit.Owner.Canonical.{IsCanonical, canonicalize_credit_owner-steady}
use agentbnb.Credit.Ledger.{
  is_usable, earliest, get_active_voucher, snapshot, get_balance, get_balance_snapshot,
}
use agentbnb.Credit.Escrow.{take_balance, covers, voucher_covers, hold_escrow, hold_with}
use agentbnb.Credit.Run.{Does}
use agentbnb.Credit.Escrow.Opened.{Holds, affordable, hold_with-Holds, column-none}
use agentbnb.Credit.Budget.{can_spend, available_credits}

-- The credits in the row of an owner.
abbrev pub credits_of : String → List BalanceRow → ℕ
credits_of o rows = (snapshot (select_first (balance_of o) rows)).0

taken_at_most :
    (o : String) (amount now : ℕ) (rows : List BalanceRow)
    → credits_of o rows ≤ credits_of o (take_balance o amount now rows) + amount
unfolding select_first update_where
taken_at_most o amount now [] = omega arith
taken_at_most o amount now (r ∷ rs) = ground (arith, taken_at_most o amount now rs)

-- A balance that covers the amount and the reserve covers the amount, and keeps the reserve.
permitted-covers :
    (o : String) (reserve amount : ℕ) (rows : List BalanceRow)
    → 0 < amount
    → leb amount (credits_of o rows - reserve) ≡ true
    → covers (select_first (balance_of o) rows) amount ≡ true
permitted-covers o reserve amount rows positive h =
    elim (Option-cases (select_first (balance_of o) rows)) [
      | inl e ↦ ground arith
      | inr (r, e) ↦ ground arith
    ]

permitted_left :
    (o : String) (reserve amount now : ℕ) (rows after : List BalanceRow)
    → 0 < amount
    → leb amount (credits_of o rows - reserve) ≡ true
    → (after ≡ rows) ⊎ (after ≡ take_balance o amount now rows)
    → reserve ≤ credits_of o after
permitted_left o reserve amount now rows after positive h (inl e) =
    subst (λ x. reserve ≤ credits_of o x) (sym e) (ground arith)
permitted_left o reserve amount now rows after positive h (inr e) =
    subst (λ x. reserve ≤ credits_of o x) (sym e) (ground (arith, taken_at_most o amount now rows))

covers-affordable :
    (o : String) (amount : ℕ) (v : Option VoucherRow) (db : Db)
    → covers (select_first (balance_of o) db.balances) amount ≡ true
    → affordable o amount v db ≡ true
covers-affordable o amount v db h = elim (Bool-cases (voucher_covers v amount)) [
  | inl e ↦ rw e
  | inr e ↦ rw e h
]

pub ok_injective : {A : Type 0} {a b : A} → ok a ≡ ok b → a ≡ b
ok_injective h = cc

module _ (owner : String) (now : ℕ) (db : Db) (canonical : IsCanonical owner db.agents) where
  get_balance_runs : get_balance owner now db ≡ (ok (credits_of owner db.balances), db)
  unfolding get_balance get_balance_snapshot
  get_balance_runs =
      ap (λ q. (ok (credits_of q.0 q.1.balances), q.1))
        (canonicalize_credit_owner-steady owner now db canonical)

  pub can_spend_runs :
      (reserve amount : ℕ)
      → 0 < amount
      → can_spend owner reserve amount now db
        ≡ (ok (leb amount (credits_of owner db.balances - reserve)), db)
  unfolding can_spend
  can_spend_runs reserve amount positive =
      let is_positive : ltb 0 amount ≡ true = ground arith in
      ap
        (λ b.
          (if b
              then (available_credits owner reserve now >>= λ available.
                  pure (leb amount available))
              else pure true)
            db)
        is_positive
      ∙ ap (continue_with (λ available. pure (leb amount available)))
          (ap (continue_with (λ balance. pure (balance - reserve))) get_balance_runs)

  abbrev chosen : Option VoucherRow
  chosen = earliest (select_all (is_usable owner now) db.vouchers)

  hold_escrow_steady :
      (amount : ℕ) (card_id id : String)
      → hold_escrow owner amount card_id id now db
        ≡ continue_with (λ _. pure id) (commit db (hold_with id owner amount card_id now chosen db))
  unfolding hold_escrow get_active_voucher
  hold_escrow_steady amount card_id id =
      let steady = canonicalize_credit_owner-steady owner now db canonical in rw (steady, steady)

-- The hold that `canSpend` has permitted.
pub permitted_hold :
    (owner : String) (reserve amount : ℕ) (card_id id : String) (now : ℕ) (db : Db)
    → HasKeys db
    → IsCanonical owner db.agents
    → terms id db ≡ none
    → 0 < amount
    → (can_spend owner reserve amount now db).0 ≡ ok true
    → Does (hold_escrow owner amount card_id id now) db (λ a after.
      (a ≡ id) × Holds id owner amount now db after × (reserve ≤ credits_of owner after.balances))
permitted_hold owner reserve amount card_id id now db keys canonical fresh positive permitted =
    let permits : leb amount (credits_of owner db.balances - reserve) ≡ true = ok_injective (
      sym (ap (λ q. q.0) (can_spend_runs owner now db canonical reserve amount positive))
      ∙ permitted) in
    let done =
      hold_with-Holds id owner amount card_id now db keys (column-none terms_of _ fresh)
        (is_usable owner now) (chosen owner now db canonical) refl
        (covers-affordable owner amount (chosen owner now db canonical) db
          (permitted-covers owner reserve amount db.balances positive permits)) in
    record {
      value = id;
      after = done.after;
      runs = rw (hold_escrow_steady owner now db canonical amount card_id id, done.runs) refl;
      holds = (
        refl,
        done.holds,
        permitted_left owner reserve amount now db.balances done.after.balances positive permits
            done.holds.taken,
      );
    }

-- What `canSpend` permits for a positive amount can be held, and the hold leaves the reserve. For a
-- canonical owner, unique keys and a fresh id: if `can_spend` answers yes, then holding the amount
-- succeeds, and the balance that is read afterwards is at least the reserve.
pub can_spend_keeps_reserve :
    (owner : String) (reserve amount : ℕ) (card_id id : String) (now : ℕ) (db : Db)
    → HasKeys db
    → IsCanonical owner db.agents
    → terms id db ≡ none
    → 0 < amount
    → (can_spend owner reserve amount now db).0 ≡ ok true
    → (let (result, db') = hold_escrow owner amount card_id id now db in
        (result ≡ ok id)
        × ((left : ℕ) × (get_balance owner now db' ≡ (ok left, db')) × (reserve ≤ left)))
can_spend_keeps_reserve owner reserve amount card_id id now db keys canonical fresh positive
      permitted =
    let done =
      permitted_hold owner reserve amount card_id id now db keys canonical fresh positive
        permitted in
    rw done.runs (
      ap ok done.holds.0,
      (
        credits_of owner done.after.balances,
        get_balance_runs owner now done.after
            (subst (IsCanonical owner) (sym done.holds.1.same_agents) canonical),
        done.holds.2,
      ),
    )
