-- ===== src/Credit/Escrow/Close.antt =====
-- The steps that the ways to end an escrow share (src/credit/escrow.ts): the row is read and its owner
-- made canonical, and in the end its status becomes terminal.
use agentbnb.Prelude.{ℕ, ◌+◌, ◌≡◌, refl, ap, ◌∙◌, true, false, String, List, Option, some, arith}
use agentbnb.Credit.Types.{EscrowStatus, StoredStatus, lifecycle, is_finalizable}
use agentbnb.Credit.Table.{
  select_first, column, update_where, column-inverse, sum_of-update_found,
  select_first-update_where_self, count-update_where,
}
use agentbnb.Credit.Db.{Db, EscrowRow, ok, escrow_at}
use agentbnb.Credit.Supply.{
  open_amount, in_escrow, HasKeys, terms, terms_of, count_one, IsKeyedEscrow,
}
use agentbnb.Credit.Owner.{canonicalize_credit_owner}
use agentbnb.Credit.Owner.Conserved.{canonicalize_credit_owner-Keeps}
use agentbnb.Credit.Escrow.{get_escrow_for_mutation}

-- The escrow as a mutation sees it, and the database once its owner is canonical.
abbrev pub readied : EscrowRow → ℕ → Db → Db
readied e now db = (canonicalize_credit_owner e.owner now db).1

abbrev pub owned_row : EscrowRow → ℕ → Db → EscrowRow
owned_row e now db = record e { owner = (canonicalize_credit_owner e.owner now db).0 }

-- The rows of the escrows after `set_status`.
abbrev pub closed : String → EscrowStatus → Option ℕ → List EscrowRow → List EscrowRow
closed id s at =
    update_where (escrow_at id) (λ r. record r { status = lifecycle s; settled_at = at })

pub get_escrow_for_mutation_found :
    (id : String) (now : ℕ) (db : Db) (e : EscrowRow)
    → select_first (escrow_at id) db.escrows ≡ some e
    → get_escrow_for_mutation id now db ≡ (ok (owned_row e now db), readied e now db)
unfolding get_escrow_for_mutation
get_escrow_for_mutation_found id now db e found = ground arith

-- Canonical owners change no terms.
pub readied-terms :
    (id : String) (now : ℕ) (db : Db) (e : EscrowRow)
    → HasKeys db
    → select_first (escrow_at id) db.escrows ≡ some e
    → terms id (readied e now db) ≡ some (terms_of e)
readied-terms id now db e keys found =
    (canonicalize_credit_owner-Keeps e.owner now db keys).same_terms id ∙ ap (column terms_of) found

module _ (id : String) (s : EscrowStatus) (at : Option ℕ) (rows : List EscrowRow) (amount : ℕ)
    (from : StoredStatus) (keyed : IsKeyedEscrow rows)
    (found : column terms_of (select_first (escrow_at id) rows) ≡ some (amount, from)) where
  -- Closing an open escrow takes its amount out of escrow.
  pub in_escrow-closed :
      is_finalizable from ≡ true
      → is_finalizable (lifecycle s) ≡ false
      → in_escrow (closed id s at rows) + amount ≡ in_escrow rows
  in_escrow-closed was now_shut =
      let (r, e, t) =
        column-inverse terms_of (select_first (escrow_at id) rows) (amount, from) found in
      let its_amount : r.amount ≡ amount = ap (λ q. q.0) t in
      let its_status : r.status ≡ from = ap (λ q. q.1) t in
      ground (
        arith,
        sum_of-update_found (escrow_at id) (λ q. record q { status = lifecycle s; settled_at = at })
            open_amount rows r e (count_one (escrow_at id) rows (keyed id) e),
      )

  pub terms-closed :
      column terms_of (select_first (escrow_at id) (closed id s at rows))
      ≡ some (amount, lifecycle s)
  terms-closed =
      let (r, e, t) =
        column-inverse terms_of (select_first (escrow_at id) rows) (amount, from) found in
      let its_amount : r.amount ≡ amount = ap (λ q. q.0) t in
      ground (
        arith,
        select_first-update_where_self (escrow_at id)
            (λ q. record q { status = lifecycle s; settled_at = at }) rows r (λ q. refl) e,
      )

  pub closed-IsKeyed : IsKeyedEscrow (closed id s at rows)
  closed-IsKeyed x = omega (
    arith,
    keyed x,
    count-update_where (escrow_at id) (escrow_at x)
        (λ r. record r { status = lifecycle s; settled_at = at }) rows (λ r h. refl),
  )
