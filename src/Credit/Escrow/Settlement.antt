-- ===== src/Credit/Escrow/Settlement.antt =====
-- `settleEscrow` (src/credit/escrow.ts) from the call to the database that it leaves.
use agentbnb.Prelude.{ℕ, ◌+◌, ◌-◌, ◌≡◌, refl, ap, true, String, some}
use agentbnb.Credit.Types.{lifecycle, settled, is_finalizable}
use agentbnb.Credit.Table.{select_first}
use agentbnb.Credit.Db.{Db, EscrowRow, ok, escrow_at, commit}
use agentbnb.Credit.Supply.{supply, HasKeys, terms}
use agentbnb.Credit.Run.{Does}
use agentbnb.Credit.Owner.Conserved.{canonicalize_credit_owner-Keeps}
use agentbnb.Credit.Owner.Canonical.{IsCanonical, canonicalize_credit_owner-steady}
use agentbnb.Credit.Booked.{Booked}
use agentbnb.Credit.Escrow.{
  fee_amount, bonus_amount, bonus_of, assert_escrow_can_finalize, settle_escrow,
}
use agentbnb.Credit.Escrow.Close.{readied, owned_row, readied-terms, get_escrow_for_mutation_found}
use agentbnb.Credit.Escrow.Settle.{number_for, pay_out-Booked}

module _ (id r : String) (now : ℕ) (db : Db) (e : EscrowRow) (keys : HasKeys db)
    (canonical : IsCanonical r db.agents) (found : select_first (escrow_at id) db.escrows ≡ some e)
    (can : is_finalizable e.status ≡ true) where
  -- The bonus that the recipient is due for this escrow.
  abbrev due : ℕ
  due =
      bonus_amount (e.amount - fee_amount e.amount)
        (bonus_of (number_for r (readied e now db).providers))

  settle_escrow_pays :
      Does
        (settle_escrow id r now)
        db
        (λ _. Booked id (some (e.amount, lifecycle settled)) (supply db + due))
  unfolding settle_escrow
  settle_escrow_pays =
      let ready = canonicalize_credit_owner-Keeps e.owner now db keys in
      let paid =
        pay_out-Booked r db.agents (readied e now db).providers id now canonical
          (owned_row e now db) (supply db) (readied e now db) can ready.same_agents refl
          (record {
            keys = ready.keys;
            has_terms = readied-terms id now db e keys found;
            supplied = ready.same_supply;
          }) in
      record {
        value = tt;
        after = paid.after;
        runs =
            rw
              (
                canonicalize_credit_owner-steady r now db canonical,
                get_escrow_for_mutation_found id now db e found,
                settle_escrow,
                assert_escrow_can_finalize,
                can,
              )
              (ap (commit db) paid.runs);
        holds = paid.holds;
      }

  -- With unique keys, settling an open escrow to a recipient whose identity is canonical
  -- succeeds, marks the escrow settled with its amount kept on record, keeps the keys unique, and
  -- grows the supply by the bonus that the recipient is due, and by nothing else.
  pub settle_escrow_conserves :
      let (result, db') = settle_escrow id r now db in
      (result ≡ ok tt)
      × HasKeys db'
      × (terms id db' ≡ some (e.amount, lifecycle settled))
      × (supply db' ≡ supply db + due)
  settle_escrow_conserves =
      let paid = settle_escrow_pays in
      rw paid.runs (refl, paid.holds.keys, paid.holds.has_terms, paid.holds.supplied)
