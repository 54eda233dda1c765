-- ===== src/Credit/Escrow/Refund.antt =====
-- `releaseEscrow` and `confirmEscrowDebit` (src/credit/escrow.ts): where the held credits go.
use agentbnb.Prelude.{ℕ, ◌+◌, ◌≡◌, refl, ◌∙◌, Bool, true, String, some, arith, ltb, if◌then◌else◌}
use agentbnb.Credit.Types.{lifecycle, released, is_finalizable}
use agentbnb.Credit.Table.{select_first, count}
use agentbnb.Credit.Db.{Db, EscrowRow, ok, balance_of, escrow_at}
use agentbnb.Credit.Supply.{supply, HasKeys, terms}
use agentbnb.Credit.Owner.Conserved.{canonicalize_credit_owner-Keeps}
use agentbnb.Credit.Booked.{add_balance-total, add_balance-IsKeyed}
use agentbnb.Credit.Escrow.{pay_back, release_escrow}
use agentbnb.Credit.Escrow.Close.{
  readied, owned_row, readied-terms, in_escrow-closed, terms-closed, closed-IsKeyed,
}

module _ (id : String) (now : ℕ) (db : Db) (e : EscrowRow)
    (found : select_first (escrow_at id) db.escrows ≡ some e)
    (can : is_finalizable e.status ≡ true) where
  release_escrow_open :
      release_escrow id now db
      ≡ (ok tt, (pay_back id (owned_row e now db) now (readied e now db)).1)
  unfolding release_escrow
  release_escrow_open = ground arith

-- Whether the owner has a row of the balances.
abbrev pub has_row : String → Db → Bool
has_row o db = ltb 0 (count (balance_of o) db.balances)

pay_back-supply :
    (id : String) (e : EscrowRow) (now : ℕ) (db : Db)
    → HasKeys db
    → terms id db ≡ some (e.amount, e.status)
    → is_finalizable e.status ≡ true
    → supply (pay_back id e now db).1 + (if has_row e.owner db then 0 else e.amount) ≡ supply db
unfolding pay_back is_finalizable
pay_back-supply id e now db keys same can = ground (
  arith,
  add_balance-total e.owner e.amount now db.balances keys.balances,
  in_escrow-closed id released (some now) db.escrows e.amount e.status keys.escrows same can refl,
)

pay_back-HasKeys :
    (id : String) (e : EscrowRow) (now : ℕ) (db : Db)
    → HasKeys db
    → terms id db ≡ some (e.amount, e.status)
    → HasKeys (pay_back id e now db).1
unfolding pay_back
pay_back-HasKeys id e now db keys same = record {
  balances = add_balance-IsKeyed e.owner e.amount now db.balances keys.balances;
  escrows = closed-IsKeyed id released (some now) db.escrows e.amount e.status keys.escrows same;
  vouchers = keys.vouchers;
}

pay_back-terms :
    (id : String) (e : EscrowRow) (now : ℕ) (db : Db)
    → HasKeys db
    → terms id db ≡ some (e.amount, e.status)
    → terms id (pay_back id e now db).1 ≡ some (e.amount, lifecycle released)
unfolding pay_back
pay_back-terms id e now db keys same =
    terms-closed id released (some now) db.escrows e.amount e.status keys.escrows same

module _ (id : String) (now : ℕ) (db : Db) (e : EscrowRow) (keys : HasKeys db)
    (found : select_first (escrow_at id) db.escrows ≡ some e)
    (can : is_finalizable e.status ≡ true) where
  -- With unique keys, releasing an open escrow succeeds, marks it released with its amount kept
  -- on record, keeps the keys unique, and leaves the supply as it was if the owner, made
  -- canonical, has a row of the balances; if not, the supply is less by the amount.
  pub release_escrow_refunds :
      let (r, db') = release_escrow id now db in
      (r ≡ ok tt)
      × HasKeys db'
      × (terms id db' ≡ some (e.amount, lifecycle released))
      × (supply db'
            + (if has_row (owned_row e now db).owner (readied e now db) then 0 else e.amount)
          ≡ supply db)
  release_escrow_refunds =
      let ready = canonicalize_credit_owner-Keeps e.owner now db keys in
      let same = readied-terms id now db e keys found in
      rw (release_escrow_open id now db e found can) (
        refl,
        pay_back-HasKeys id (owned_row e now db) now (readied e now db) ready.keys same,
        pay_back-terms id (owned_row e now db) now (readied e now db) ready.keys same,
        pay_back-supply id (owned_row e now db) now (readied e now db) ready.keys same can
            ∙ ready.same_supply,
      )
