-- ===== src/Credit/Escrow/Finished.antt =====
-- An escrow that is settled or released stays so, whatever operations of src/credit/escrow.ts are
-- tried on it afterwards.
use agentbnb.Prelude.{ℕ, ◌≡◌, refl, ap, ◌∙◌, true, false, String, List, [], ◌∷◌, some, arith}
use agentbnb.Credit.Types.{
  EscrowStatus, lifecycle, is_terminal, is_finalizable, escrow_already_settled,
}
use agentbnb.Credit.Table.{select_first, column, column-inverse}
use agentbnb.Credit.Db.{Db, EscrowRow, Action, err, escrow_at}
use agentbnb.Credit.Supply.{supply, HasKeys, terms, terms_of, Keeps, Keeps-refl}
use agentbnb.Credit.Owner.{canonicalize_credit_owner}
use agentbnb.Credit.Owner.Conserved.{canonicalize_credit_owner-Keeps}
use agentbnb.Credit.Escrow.{settle_escrow, release_escrow, confirm_escrow_debit}
use agentbnb.Credit.Escrow.Lifecycle.{release_escrow_final}
use agentbnb.Credit.Escrow.Marks.{Mark, run_mark, may, run_mark_refuses}

-- The operations on an escrow that exists, a settlement with its recipient.
pub data Operation : Type 0 where
  mark : Mark → Operation
  settle : String → Operation
  release confirm : Operation

abbrev pub run_operation : Operation → String → ℕ → Action (Unit {0})
run_operation (mark m) id now = run_mark m id now
run_operation (settle recipient) id now = settle_escrow id recipient now
run_operation release id now = release_escrow id now
run_operation confirm id now = confirm_escrow_debit id now

-- The database after a sequence of them, each at its time, whether it succeeds or fails.
unfoldable pub run_operations : List (Operation × ℕ) → String → Db → Db
run_operations [] id db = db
run_operations ((o, now) ∷ rest) id db = run_operations rest id (run_operation o id now db).1

may-terminal : (m : Mark) (s : EscrowStatus) → is_terminal (lifecycle s) ≡ true → may m s ≡ false
unfolding is_terminal
may-terminal m s h = ground arith

-- A settlement fails behind the resolution of its recipient, which is outside the transaction.
settle_escrow_final :
    (id r : String) (now : ℕ) (db : Db) (e : EscrowRow)
    → select_first (escrow_at id) (canonicalize_credit_owner r now db).1.escrows ≡ some e
    → is_terminal e.status ≡ true
    → settle_escrow id r now db
      ≡ (err escrow_already_settled, (canonicalize_credit_owner r now db).1)
unfolding settle_escrow is_terminal is_finalizable
settle_escrow_final id r now db e found over = ground arith

module _ (id : String) (now : ℕ) (db : Db) (e : EscrowRow) (s : EscrowStatus) (keys : HasKeys db)
    (found : select_first (escrow_at id) db.escrows ≡ some e) (current : e.status ≡ lifecycle s)
    (over : is_terminal (lifecycle s) ≡ true) where
  terminal_row : is_terminal e.status ≡ true
  terminal_row = ap is_terminal current ∙ over

  run_operation-Keeps : (o : Operation) → Keeps db (run_operation o id now db).1
  run_operation-Keeps (mark m) =
      rw (run_mark_refuses m id now db e s keys found current (may-terminal m s over))
        (Keeps-refl db keys)
  run_operation-Keeps (settle r) =
      let moved = canonicalize_credit_owner-Keeps r now db keys in
      let (e', found', same) =
        column-inverse terms_of _ (terms_of e) (moved.same_terms id ∙ ap (column terms_of) found) in
      rw
        (settle_escrow_final id r now db e' found'
          (ap is_terminal (ap (λ q. q.1) same) ∙ terminal_row))
        moved
  run_operation-Keeps release =
      rw (release_escrow_final id now db e found terminal_row).0 (Keeps-refl db keys)
  run_operation-Keeps confirm =
      rw (release_escrow_final id now db e found terminal_row).1 (Keeps-refl db keys)

-- An escrow pays out at most once. With unique keys, once the escrow is settled or released, any sequence of
-- marks, settlements, releases and confirmations of it, at whatever times and to whatever
-- recipients, leaves its status and amount, the supply, and the keys as they are.
pub run_operations_final :
    (operations : List (Operation × ℕ)) (id : String) (amount : ℕ) (s : EscrowStatus) (db : Db)
    → HasKeys db
    → terms id db ≡ some (amount, lifecycle s)
    → is_terminal (lifecycle s) ≡ true
    → (terms id (run_operations operations id db) ≡ some (amount, lifecycle s))
      × (supply (run_operations operations id db) ≡ supply db)
      × HasKeys (run_operations operations id db)
unfolding run_operations
run_operations_final [] id amount s db keys found over = (found, refl, keys)
run_operations_final ((o, now) ∷ rest) id amount s db keys found over =
    let (e, row, same) = column-inverse terms_of _ (amount, lifecycle s) found in
    let kept = run_operation-Keeps id now db e s keys row (ap (λ q. q.1) same) over o in
    let (t, n, k) =
      run_operations_final rest id amount s (run_operation o id now db).1 kept.keys
        (kept.same_terms id ∙ found) over in
    (t, n ∙ kept.same_supply, k)
