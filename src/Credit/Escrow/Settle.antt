-- ===== src/Credit/Escrow/Settle.antt =====
-- `settleEscrow` (src/credit/escrow.ts) as a whole: its steps in order, and what they do to the supply.
use agentbnb.Prelude.{
  ℕ, ◌+◌, ◌-◌, ◌≤◌, ◌≡◌, refl, sym, ap, ◌∙◌, inl, inr, true, String, List, Option, none, some,
  arith, subst, str_eq_iff, Option-cases,
}
use agentbnb.Credit.Types.{StoredStatus, lifecycle, settled, is_finalizable, settlement, pos}
use agentbnb.Credit.Table.{select_first, count, select_first-insert_new}
use agentbnb.Credit.Db.{
  Db, EscrowRow, AgentRow, ProviderRow, provider_of, Action, balance_of, ◌>>=◌, ◌>>◌,
}
use agentbnb.Credit.Run.{Does, Does_bind}
use agentbnb.Credit.Owner.{canonicalize_credit_owner}
use agentbnb.Credit.Owner.Canonical.{IsCanonical, canonicalize_credit_owner-steady}
use agentbnb.Credit.Booked.{Booked, open_balance-has_row, count-add_balance, credit_to-Booked}
use agentbnb.Credit.Ledger.{
  credit_to, log_tx, open_balance, number_of, max_provider_number, get_provider_number,
  register_provider, enroll,
}
use agentbnb.Credit.Metrics.{record_successful_hire}
use agentbnb.Credit.Escrow.{
  fee_amount, bonus_amount, bonus_of, pay_fee, pay_bonus, pay_out, set_status, or_register,
}
use agentbnb.Credit.Escrow.Payment.{Stage, log_tx-Stage, pay_fee-Stage, set_status-Stage}
use agentbnb.Credit.Escrow.Bonus.{fee_split, pay_bonus-Booked, record_successful_hire-Booked}

-- The number that an owner has among the providers, or is given as the next.
abbrev pub numbered : String → List ProviderRow → Option ℕ → Option ℕ
numbered r providers (some n) = some n
numbered r providers none = some (max_provider_number providers + 1)

abbrev pub number_for : String → List ProviderRow → Option ℕ
number_for r providers = numbered r providers (number_of (select_first (provider_of r) providers))

enrolled :
    (r : String) (now : ℕ) (rows : List ProviderRow)
    → number_of (select_first (provider_of r) rows) ≡ none
    → number_of (select_first (provider_of r) (enroll r now rows))
      ≡ some (max_provider_number rows + 1)
enrolled r now rows h = elim (Option-cases (select_first (provider_of r) rows)) [
  | inl e ↦ ground (
    arith,
    str_eq_iff r r,
    select_first-insert_new (provider_of r)
        (record { owner = r; provider_number = max_provider_number rows + 1; registered_at = now })
        rows e,
  )
  | inr (row, e) ↦ absurd (ground arith)
]

module _ (r : String) (agents : List AgentRow) (providers : List ProviderRow) (id : String)
    (now : ℕ) (canonical : IsCanonical r agents) where
  abbrev known : Option ℕ
  known = number_of (select_first (provider_of r) providers)

  fixed : (db : Db) → db.agents ≡ agents → canonicalize_credit_owner r now db ≡ (r, db)
  fixed db e = canonicalize_credit_owner-steady r now db (subst (IsCanonical r) (sym e) canonical)

  get_provider_number-Stage :
      (t : Option (ℕ × StoredStatus)) (n : ℕ) (db : Db)
      → Stage r agents providers id now t n db
      → Does
          (get_provider_number r now)
          db
          (λ k d. (k ≡ known) × Stage r agents providers id now t n d)
  unfolding get_provider_number
  get_provider_number-Stage t n db s = record {
    value = number_of (select_first (provider_of r) db.providers);
    after = db;
    runs = rw (fixed db s.same_agents, get_provider_number);
    holds = (ap (λ ps. number_of (select_first (provider_of r) ps)) s.same_providers, s);
  }

  or_register-Booked :
      (t : Option (ℕ × StoredStatus)) (n : ℕ) (db : Db) (k : Option ℕ)
      → k ≡ known
      → Stage r agents providers id now t n db
      → Does (or_register r now k) db (λ number d.
        (number ≡ number_for r providers) × Booked id t n d × (1 ≤ count (balance_of r) d.balances))
  unfolding register_provider
  or_register-Booked t n db none e s =
      let b = s.booked in
      let same = ap (λ ps. number_of (select_first (provider_of r) ps)) s.same_providers in
      record {
        value = number_of (select_first (provider_of r) (enroll r now db.providers));
        after = record db { providers = enroll r now db.providers };
        runs = rw (fixed db s.same_agents, register_provider);
        holds = (
          enrolled r now db.providers (same ∙ sym e)
              ∙ ap (λ ps. some (max_provider_number ps + 1)) s.same_providers
              ∙ ap (numbered r providers) e,
          record {
            keys = record {
              balances = b.keys.balances;
              escrows = b.keys.escrows;
              vouchers = b.keys.vouchers;
            };
            has_terms = b.has_terms;
            supplied = b.supplied;
          },
          s.row,
        );
      }
  or_register-Booked t n db (some k) e s = record {
    value = some k;
    after = db;
    runs = refl;
    holds = (ap (numbered r providers) e, s.booked, s.row);
  }

  -- What is left once the amount is paid out: the number of the recipient, the bonus and the metrics.
  abbrev reward : String → ℕ → Action (Unit {0})
  reward requester provider_amount = do
    k ← get_provider_number r now
    number ← or_register r now k
    pay_bonus id r provider_amount (bonus_of number) now
    record_successful_hire r requester now

  reward-Booked :
      (requester : String) (provider_amount : ℕ) (t : Option (ℕ × StoredStatus)) (n : ℕ) (db : Db)
      → Stage r agents providers id now t n db
      → Does
          (reward requester provider_amount)
          db
          (λ _. Booked id t (n + bonus_amount provider_amount (bonus_of (number_for r providers))))
  reward-Booked requester provider_amount t n db s =
      Does_bind (get_provider_number r now) _ db (get_provider_number-Stage t n db s)
        λ k d1 (ek, s1).
          Does_bind (or_register r now k) _ d1 (or_register-Booked t n d1 k ek s1)
            λ number d2 (en, b2, row).
              Does_bind (pay_bonus id r provider_amount (bonus_of number) now) _ d2
                (pay_bonus-Booked r id t n d2 provider_amount (bonus_of number) now b2 row)
                λ _ d3 b3. record_successful_hire-Booked id t _ d3 r requester now (
                  subst (λ x. Booked id t (n + bonus_amount provider_amount (bonus_of x)) d3) en b3)

  -- What is left once the fee is paid.
  abbrev complete : EscrowRow → Action (Unit {0})
  complete e = do
    set_status id settled (some now)
    log_tx r (pos (e.amount - fee_amount e.amount)) settlement (some id) now
    reward e.owner (e.amount - fee_amount e.amount)

  complete-Booked :
      (e : EscrowRow) (n : ℕ) (db : Db)
      → is_finalizable e.status ≡ true
      → Stage r agents providers id now (some (e.amount, e.status)) (n + e.amount) db
      → Does (complete e) db (λ _.
        Booked id
          (some (e.amount, lifecycle settled))
          (n + bonus_amount (e.amount - fee_amount e.amount) (bonus_of (number_for r providers))))
  complete-Booked e n db can s =
      let rest = e.amount - fee_amount e.amount in
      let t = some (e.amount, lifecycle settled) in
      let shut = set_status-Stage r agents providers id now e.amount e.status n db can s in
      let booked =
        reward-Booked e.owner rest t n _
          (log_tx-Stage r agents providers id now t n _ shut r (pos rest) settlement (some id)) in
      record {
        value = booked.value;
        after = booked.after;
        runs = booked.runs;
        holds = booked.holds;
      }

  -- The payment of an open escrow: the amount goes out, and the bonus comes on top.
  pub pay_out-Booked :
      (e : EscrowRow) (n : ℕ) (db : Db)
      → is_finalizable e.status ≡ true
      → db.agents ≡ agents
      → db.providers ≡ providers
      → Booked id (some (e.amount, e.status)) n db
      → Does (pay_out id r e now) db (λ _.
        Booked id
          (some (e.amount, lifecycle settled))
          (n + bonus_amount (e.amount - fee_amount e.amount) (bonus_of (number_for r providers))))
  unfolding pay_out
  pay_out-Booked e n db can ea ep b =
      let fee = fee_amount e.amount in
      let rest = e.amount - fee in
      let t : Option (ℕ × StoredStatus) = some (e.amount, e.status) in
      let first : Stage r agents providers id now t (n + rest) (credit_to r rest now db).1 =
        record {
          booked = credit_to-Booked id t n db b r rest now;
          same_agents = ea;
          same_providers = ep;
          row = omega (
            arith,
            count-add_balance r r rest now (open_balance r 0 now db.balances),
            open_balance-has_row r 0 now db.balances,
          );
        } in
      let split : n + rest + fee ≡ n + e.amount = omega (arith, fee_split e.amount) in
      let paid =
        Does_bind (pay_fee id fee now) (λ _. complete e) (credit_to r rest now db).1
          (pay_fee-Stage r agents providers id now t (n + rest) _ fee first)
          λ _ d1 s1.
            complete-Booked e n d1 can
              (subst (λ m. Stage r agents providers id now t m d1) split s1) in
      record { value = paid.value; after = paid.after; runs = paid.runs; holds = paid.holds }
