-- ===== src/Credit/Escrow/Payment.antt =====
-- `settleEscrow` (src/credit/escrow.ts): the held amount goes to the provider and the treasury, and the
-- early-provider bonus comes on top.
use agentbnb.Prelude.{
  ℕ, ◌+◌, ◌≤◌, ◌≡◌, refl, inl, inr, true, String, List, Option, some, arith, ltb, subst, Bool-cases,
}
use agentbnb.Credit.Types.{
  StoredStatus, lifecycle, settled, is_finalizable, network_fee, TxReason, ℤ, pos,
}
use agentbnb.Credit.Table.{count}
use agentbnb.Credit.Db.{Db, AgentRow, ProviderRow, balance_of, treasury}
use agentbnb.Credit.Run.{Does}
use agentbnb.Credit.Booked.{
  Booked, open_balance-keeps_row, count-add_balance, log_tx-Booked, credit_to-Booked,
}
use agentbnb.Credit.Ledger.{credit_to, log_tx, open_balance}
use agentbnb.Credit.Escrow.{pay_fee, set_status}
use agentbnb.Credit.Escrow.Close.{in_escrow-closed, terms-closed, closed-IsKeyed}

module _ (r : String) (agents : List AgentRow) (providers : List ProviderRow) (id : String)
    (now : ℕ) where
  -- The books between two steps of a payment to `r`, who has a row of the balances.
  pub record Stage (t : Option (ℕ × StoredStatus)) (n : ℕ) (db : Db) : Type 0 where
    pub booked : Booked id t n db
    pub same_agents : db.agents ≡ agents
    pub same_providers : db.providers ≡ providers
    pub row : 1 ≤ count (balance_of r) db.balances

  module _ (t : Option (ℕ × StoredStatus)) (n : ℕ) (db : Db) (s : Stage t n db) where
    pub log_tx-Stage :
        (o : String) (a : ℤ) (reason : TxReason) (ref : Option String)
        → Stage t n (log_tx o a reason ref now db).1
    log_tx-Stage o a reason ref = record {
      booked = log_tx-Booked id t n db s.booked o a reason ref now;
      same_agents = s.same_agents;
      same_providers = s.same_providers;
      row = s.row;
    }

    pub credit_to-Stage :
        (o : String) (amount : ℕ) → Stage t (n + amount) (credit_to o amount now db).1
    credit_to-Stage o amount = record {
      booked = credit_to-Booked id t n db s.booked o amount now;
      same_agents = s.same_agents;
      same_providers = s.same_providers;
      row = omega (
        arith,
        s.row,
        open_balance-keeps_row o r 0 now db.balances,
        count-add_balance o r amount now (open_balance o 0 now db.balances),
      );
    }

  pub pay_fee-Stage :
      (t : Option (ℕ × StoredStatus)) (n : ℕ) (db : Db) (fee : ℕ)
      → Stage t n db
      → Does (pay_fee id fee now) db (λ _. Stage t (n + fee))
  unfolding pay_fee
  pay_fee-Stage t n db fee s = elim (Bool-cases (ltb 0 fee)) [
    | inl some_fee ↦
        rw (some_fee, pay_fee)
          (record {
            value = tt;
            after = _;
            runs = refl;
            holds =
                log_tx-Stage t (n + fee) _ (credit_to-Stage t n db s treasury fee) treasury
                  (pos fee) network_fee (some id);
          })
    | inr no_fee ↦
        rw (no_fee, pay_fee)
          (record {
            value = tt;
            after = db;
            runs = refl;
            holds = subst (λ m. Stage t m db) (ground arith) s;
          })
  ]

  pub set_status-Stage :
      (amount : ℕ) (from : StoredStatus) (n : ℕ) (db : Db)
      → is_finalizable from ≡ true
      → Stage (some (amount, from)) (n + amount) db
      → Stage (some (amount, lifecycle settled)) n (set_status id settled (some now) db).1
  unfolding is_finalizable
  set_status-Stage amount from n db can s =
      let b = s.booked in
      record {
        booked = record {
          keys = record {
            balances = b.keys.balances;
            escrows =
                closed-IsKeyed id settled (some now) db.escrows amount from b.keys.escrows
                  b.has_terms;
            vouchers = b.keys.vouchers;
          };
          has_terms =
              terms-closed id settled (some now) db.escrows amount from b.keys.escrows b.has_terms;
          supplied = omega (
            arith,
            b.supplied,
            in_escrow-closed id settled (some now) db.escrows amount from b.keys.escrows b.has_terms
                can refl,
          );
        };
        same_agents = s.same_agents;
        same_providers = s.same_providers;
        row = s.row;
      }
