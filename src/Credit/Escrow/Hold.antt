-- ===== src/Credit/Escrow/Hold.antt =====
-- `holdEscrow` (src/credit/escrow.ts): credits go from a voucher or from the balance into escrow.
use agentbnb.Prelude.{
  ℕ, ◌≡◌, refl, ◌∙◌, inl, inr, true, String, Option, none, some, Bool-cases, ap, if◌then◌else◌,
}
use agentbnb.Credit.Types.{lifecycle, held, insufficient_credits}
use agentbnb.Credit.Table.{select_first, select_all}
use agentbnb.Credit.Db.{Db, VoucherRow, ok, err, pure, continue_with, commit, escrow_at}
use agentbnb.Credit.Supply.{supply, HasKeys, terms, terms_of, Keeps, Keeps-trans}
use agentbnb.Credit.Run.{Does}
use agentbnb.Credit.Owner.{canonicalize_credit_owner}
use agentbnb.Credit.Owner.Conserved.{canonicalize_credit_owner-Keeps}
use agentbnb.Credit.Ledger.{earliest, is_usable, get_active_voucher}
use agentbnb.Credit.Escrow.{hold_with, hold_escrow}
use agentbnb.Credit.Escrow.Opened.{
  affordable, Holds, hold_with-Holds, hold_with_refused, column-none,
}

module _ (owner : String) (amount : ℕ) (card_id id : String) (now : ℕ) (db : Db) (keys : HasKeys db)
    (fresh : terms id db ≡ none) where
  -- The owner made canonical, and the books before and after the search for a voucher.
  abbrev pub payer : String
  payer = (canonicalize_credit_owner owner now db).0

  abbrev pub resolved : Db
  resolved = (canonicalize_credit_owner owner now db).1

  abbrev pub searched : Db
  searched = (canonicalize_credit_owner payer now resolved).1

  abbrev pub voucher : Option VoucherRow
  voucher = earliest (
      select_all (is_usable (canonicalize_credit_owner payer now resolved).0 now) searched.vouchers)

  resolved-Keeps : Keeps db resolved
  resolved-Keeps = canonicalize_credit_owner-Keeps owner now db keys

  pub searched-Keeps : Keeps db searched
  searched-Keeps =
      Keeps-trans resolved-Keeps
        (canonicalize_credit_owner-Keeps payer now resolved resolved-Keeps.keys)

  still_fresh : select_first (escrow_at id) searched.escrows ≡ none
  still_fresh = column-none terms_of _ (searched-Keeps.same_terms id ∙ fresh)

  -- The run of `holdEscrow`, up to the outcome of its transaction.
  hold_escrow_runs :
      hold_escrow owner amount card_id id now db
      ≡ continue_with
          (λ _. pure id)
          (commit resolved (hold_with id payer amount card_id now voucher searched))
  unfolding hold_escrow get_active_voucher
  hold_escrow_runs = refl

  -- A hold that is covered, up to the database that it leaves.
  pub hold_escrow-Holds :
      affordable payer amount voucher searched ≡ true
      → Does
          (hold_escrow owner amount card_id id now)
          db
          (λ a after. (a ≡ id) × Holds id payer amount now searched after)
  hold_escrow-Holds h =
      let paid =
        hold_with-Holds id payer amount card_id now searched searched-Keeps.keys still_fresh
          (is_usable (canonicalize_credit_owner payer now resolved).0 now) voucher refl h in
      record {
        value = id;
        after = paid.after;
        runs = rw (hold_escrow_runs, paid.runs);
        holds = (refl, paid.holds);
      }

  -- With unique keys and an id that no escrow has, holding an amount succeeds exactly if a voucher or the
  -- balance of the owner covers it; then the id is held for that amount, and if not the error is
  -- the lack of credits and no escrow is there. In both cases the keys stay unique and the supply stays the same.
  pub hold_escrow_conserves :
      let (result, db') = hold_escrow owner amount card_id id now db in
      let covered = affordable payer amount voucher searched in
      (result ≡ (if covered then ok id else err insufficient_credits))
      × (terms id db' ≡ (if covered then some (amount, lifecycle held) else none))
      × HasKeys db'
      × (supply db' ≡ supply db)
  hold_escrow_conserves = elim (Bool-cases (affordable payer amount voucher searched)) [
    | inl h ↦
        let paid = hold_escrow-Holds h in
        rw (paid.runs, h)
          (
            ap ok paid.holds.0,
            paid.holds.1.has_terms,
            paid.holds.1.keys,
            paid.holds.1.same_supply ∙ searched-Keeps.same_supply,
          )
    | inr h ↦
        rw
          (
            hold_escrow_runs,
            hold_with_refused id payer amount card_id now searched searched-Keeps.keys still_fresh
                voucher h,
            h,
          )
          (
            refl,
            resolved-Keeps.same_terms id ∙ fresh,
            resolved-Keeps.keys,
            resolved-Keeps.same_supply,
          )
  ]
