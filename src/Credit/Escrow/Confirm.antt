-- ===== src/Credit/Escrow/Confirm.antt =====
-- `confirmEscrowDebit` (src/credit/escrow.ts): the requester's side of a settlement between machines.
use agentbnb.Prelude.{ℕ, ◌+◌, ◌≡◌, refl, true, String, some, arith}
use agentbnb.Credit.Types.{lifecycle, settled, is_finalizable, remote_settlement_confirmed, pos}
use agentbnb.Credit.Table.{select_first, insert}
use agentbnb.Credit.Db.{Db, EscrowRow, ok, escrow_at}
use agentbnb.Credit.Supply.{supply, HasKeys, terms}
use agentbnb.Credit.Owner.Conserved.{canonicalize_credit_owner-Keeps}
use agentbnb.Credit.Escrow.{confirm_escrow_debit}
use agentbnb.Credit.Escrow.Close.{
  readied, owned_row, closed, readied-terms, in_escrow-closed, terms-closed, closed-IsKeyed,
}

module _ (id : String) (now : ℕ) (db : Db) (e : EscrowRow) (keys : HasKeys db)
    (found : select_first (escrow_at id) db.escrows ≡ some e)
    (can : is_finalizable e.status ≡ true) where
  abbrev confirmed : Db
  confirmed =
      let before = readied e now db in
      record before {
        escrows = closed id settled (some now) before.escrows;
        transactions =
            insert
              (record {
                owner = (owned_row e now db).owner;
                amount = pos 0;
                reason = remote_settlement_confirmed;
                reference_id = some id;
                created_at = now;
              })
              before.transactions;
      }

  confirm_escrow_debit_open : confirm_escrow_debit id now db ≡ (ok tt, confirmed)
  unfolding confirm_escrow_debit
  confirm_escrow_debit_open = ground arith

  confirmed-HasKeys : HasKeys confirmed
  confirmed-HasKeys =
      let ready = canonicalize_credit_owner-Keeps e.owner now db keys in
      record {
        balances = ready.keys.balances;
        escrows =
            closed-IsKeyed id settled (some now) (readied e now db).escrows e.amount e.status
              ready.keys.escrows (readied-terms id now db e keys found);
        vouchers = ready.keys.vouchers;
      }

  confirmed-supply : supply confirmed + e.amount ≡ supply db
  unfolding is_finalizable
  confirmed-supply =
      let ready = canonicalize_credit_owner-Keeps e.owner now db keys in
      omega (
        arith,
        ready.same_supply,
        in_escrow-closed id settled (some now) (readied e now db).escrows e.amount e.status
            ready.keys.escrows (readied-terms id now db e keys found) can refl,
      )

  -- With unique keys, confirming an open escrow succeeds, marks it settled with its amount kept
  -- on record, keeps the keys unique, and takes exactly its amount out of the supply of this
  -- database.
  pub confirm_escrow_debit_debits :
      let (r, db') = confirm_escrow_debit id now db in
      (r ≡ ok tt)
      × HasKeys db'
      × (terms id db' ≡ some (e.amount, lifecycle settled))
      × (supply db' + e.amount ≡ supply db)
  confirm_escrow_debit_debits = rw confirm_escrow_debit_open (
    refl,
    confirmed-HasKeys,
    terms-closed id settled (some now) (readied e now db).escrows e.amount e.status
        (canonicalize_credit_owner-Keeps e.owner now db keys).keys.escrows
        (readied-terms id now db e keys found),
    confirmed-supply,
  )
