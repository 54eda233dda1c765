-- ===== src/Credit/Owner/Conserved.antt =====
-- Moving an owner's rows loses and makes no credits (src/credit/owner-normalization.ts).
use agentbnb.Prelude.{
  ℕ, ◌+◌, ◌≡◌, ◌≢◌, refl, ◌∙◌, subst, inl, inr, ◌||◌, String, List, [], ◌∷◌, Option, none, some,
  arith, str_eq, str_eq_iff, Bool-cases, Option-cases,
}
use agentbnb.Credit.Table.{
  select_first, update_where, delete_where, count, select_first-none, sum_of-update_where,
  sum_of-update_same, sum_of-delete_where, select_first-update_where_other, count-update_where,
  count-update_where-le_add, count-update_where-le, count-delete_where-le, column-update_where,
}
use agentbnb.Credit.Db.{Db, BalanceRow, balance_of, escrow_at, voucher_at, AgentRow, treasury}
use agentbnb.Credit.Supply.{
  total_balance, open_amount, supply, IsKeyed, HasKeys, terms_of, Keeps, Keeps-trans, Keeps-refl,
  count_one,
}
use agentbnb.Credit.Owner.{
  merge_balance_rows, move_rows, migrate_credit_owner_data, migrate_all, canonicalize_credit_owner,
  canonicalize_as, aliases, resolve_canonical_identity,
}

-- Adding to one owner's row does not touch another owner's.
other_owner :
    (old new : String) (added now : ℕ) (rows : List BalanceRow)
    → old ≢ new
    → select_first (balance_of old) (
        update_where
          (balance_of new)
          (λ r. record r { balance = r.balance + added; updated_at = now })
          rows)
      ≡ select_first (balance_of old) rows
other_owner old new added now rows ne =
    select_first-update_where_other (balance_of new) (balance_of old) _ rows
      (λ r h. ground (arith, str_eq_iff r.owner new, str_eq_iff r.owner old))

both_rows :
    (old new : String) (now : ℕ) (o n : BalanceRow) (rows : List BalanceRow)
    → old ≢ new
    → IsKeyed rows
    → select_first (balance_of old) rows ≡ some o
    → select_first (balance_of new) rows ≡ some n
    → total_balance (
        delete_where (balance_of old) (
          update_where
            (balance_of new)
            (λ r. record r { balance = r.balance + o.balance; updated_at = now })
            rows))
      ≡ total_balance rows
both_rows old new now o n rows ne keyed eo en = omega (
  arith,
  sum_of-update_where (balance_of new)
      (λ r. record r { balance = r.balance + o.balance; updated_at = now }) (λ r. r.balance) 0
      o.balance rows (λ r h. omega arith) (count_one (balance_of new) rows (keyed new) en),
  sum_of-delete_where (balance_of old) (λ r. r.balance) _ o
      (other_owner old new o.balance now rows ne ∙ eo)
      (count-update_where (balance_of new) (balance_of old) _ rows (λ r h. refl)
        ∙ count_one (balance_of old) rows (keyed old) eo),
)

renamed_row :
    (old new : String) (now : ℕ) (rows : List BalanceRow)
    → total_balance
        (update_where (balance_of old) (λ r. record r { owner = new; updated_at = now }) rows)
      ≡ total_balance rows
renamed_row old new now rows = sum_of-update_same _ _ (λ r. r.balance) rows (λ r. refl)

merge_balance_rows-total :
    (old new : String) (now : ℕ) (rows : List BalanceRow)
    → old ≢ new
    → IsKeyed rows
    → total_balance (merge_balance_rows old new now rows) ≡ total_balance rows
unfolding merge_balance_rows
merge_balance_rows-total old new now rows ne keyed =
    elim (Option-cases (select_first (balance_of old) rows)) [
      | inl e ↦ rw (e, merge_balance_rows)
      | inr (o, eo) ↦ elim (Option-cases (select_first (balance_of new) rows)) [
        | inl e ↦ rw (eo, e, merge_balance_rows) (renamed_row old new now rows)
        | inr (n, en) ↦
            rw (eo, en, merge_balance_rows) (both_rows old new now o n rows ne keyed eo en)
      ]
    ]

renamed-IsKeyed :
    (old new : String) (now : ℕ) (rows : List BalanceRow)
    → IsKeyed rows
    → select_first (balance_of new) rows ≡ none
    → IsKeyed (update_where (balance_of old) (λ r. record r { owner = new; updated_at = now }) rows)
renamed-IsKeyed old new now rows keyed e x = elim (Bool-cases (str_eq new x)) [
  | inl same ↦ omega (
    arith,
    keyed old,
    subst (λ y. count (balance_of y) rows ≡ 0) ((str_eq_iff new x).0 same)
        (select_first-none (balance_of new) rows e),
    count-update_where-le_add (balance_of old) (balance_of x)
        (λ r. record r { owner = new; updated_at = now }) rows,
  )
  | inr other ↦ omega (
    arith,
    keyed x,
    count-update_where-le (balance_of old) (balance_of x)
        (λ r. record r { owner = new; updated_at = now }) rows (λ r. other),
  )
]

merge_balance_rows-IsKeyed :
    (old new : String) (now : ℕ) (rows : List BalanceRow)
    → IsKeyed rows
    → IsKeyed (merge_balance_rows old new now rows)
unfolding merge_balance_rows
merge_balance_rows-IsKeyed old new now rows keyed x =
    elim (Option-cases (select_first (balance_of old) rows)) [
      | inl e ↦ rw (e, merge_balance_rows) (keyed x)
      | inr (o, eo) ↦ elim (Option-cases (select_first (balance_of new) rows)) [
        | inl e ↦ rw (eo, e, merge_balance_rows) (renamed-IsKeyed old new now rows keyed e x)
        | inr (n, en) ↦
            rw (eo, en, merge_balance_rows)
              (omega (
                arith,
                keyed x,
                count-delete_where-le (balance_of old) (balance_of x) (
                    update_where (balance_of new)
                      (λ r. record r { balance = r.balance + o.balance; updated_at = now }) rows),
                count-update_where (balance_of new) (balance_of x)
                    (λ r. record r { balance = r.balance + o.balance; updated_at = now }) rows
                    (λ r h. refl),
              ))
      ]
    ]

move_rows-supply :
    (old new : String) (now : ℕ) (db : Db)
    → old ≢ new
    → HasKeys db
    → supply (move_rows old new now db) ≡ supply db
unfolding move_rows
move_rows-supply old new now db ne keys = omega (
  arith,
  merge_balance_rows-total old new now db.balances ne keys.balances,
  sum_of-update_same (λ r. str_eq r.owner old) (λ r. record r { owner = new }) open_amount
      db.escrows (λ r. refl),
  sum_of-update_same (λ r. str_eq r.owner old) (λ r. record r { owner = new }) (λ r. r.remaining)
      db.vouchers (λ r. refl),
)

move_rows-HasKeys :
    (old new : String) (now : ℕ) (db : Db) → HasKeys db → HasKeys (move_rows old new now db)
unfolding move_rows
move_rows-HasKeys old new now db keys = record {
  balances = merge_balance_rows-IsKeyed old new now db.balances keys.balances;
  escrows = λ id. omega (
    arith,
    keys.escrows id,
    count-update_where (λ r. str_eq r.owner old) (escrow_at id) (λ r. record r { owner = new })
        db.escrows (λ r h. refl),
  );
  vouchers = λ id. omega (
    arith,
    keys.vouchers id,
    count-update_where (λ r. str_eq r.owner old) (voucher_at id) (λ r. record r { owner = new })
        db.vouchers (λ r h. refl),
  );
}

-- A migration keeps the supply and the keys, between any two owners.
pub migrate_credit_owner_data-Keeps :
    (old new : String) (now : ℕ) (db : Db)
    → HasKeys db
    → Keeps db (migrate_credit_owner_data old new now db)
unfolding migrate_credit_owner_data move_rows
migrate_credit_owner_data-Keeps old new now db keys =
    elim (Bool-cases (str_eq old "" || str_eq new "" || str_eq old new)) [
      | inl skip ↦ rw (skip, migrate_credit_owner_data) (Keeps-refl db keys)
      | inr go ↦
          rw (go, migrate_credit_owner_data)
            (record {
              same_supply =
                  move_rows-supply old new now db (ground (arith, str_eq_iff old new)) keys;
              keys = move_rows-HasKeys old new now db keys;
              same_agents = refl;
              same_terms = λ id.
                  column-update_where (λ r. str_eq r.owner old) (escrow_at id)
                    (λ r. record r { owner = new }) terms_of db.escrows (λ r. refl) (λ r. refl);
            })
    ]

migrate_all-Keeps :
    (olds : List String) (new : String) (now : ℕ) (db : Db)
    → HasKeys db
    → Keeps db (migrate_all olds new now db)
unfolding migrate_all
migrate_all-Keeps [] new now db keys = Keeps-refl db keys
migrate_all-Keeps (a ∷ rest) new now db keys =
    let first = migrate_credit_owner_data-Keeps a new now db keys in
    Keeps-trans first (migrate_all-Keeps rest new now _ first.keys)

canonicalize_as-Keeps :
    (agent : Option AgentRow) (owner : String) (now : ℕ) (db : Db)
    → HasKeys db
    → Keeps db (canonicalize_as agent owner now db).1
canonicalize_as-Keeps none owner now db keys = Keeps-refl db keys
canonicalize_as-Keeps (some a) owner now db keys =
    migrate_all-Keeps (aliases owner a) a.agent_id now db keys

-- With unique keys, resolving an owner to its canonical id keeps the supply, the keys, the agents
-- and the terms of every escrow, whatever rows it moves on the way.
pub canonicalize_credit_owner-Keeps :
    (owner : String) (now : ℕ) (db : Db)
    → HasKeys db
    → Keeps db (canonicalize_credit_owner owner now db).1
unfolding canonicalize_credit_owner
canonicalize_credit_owner-Keeps owner now db keys =
    elim (Bool-cases (str_eq owner "" || str_eq owner treasury)) [
      | inl reserved ↦ rw (reserved, canonicalize_credit_owner) (Keeps-refl db keys)
      | inr other ↦
          rw (other, canonicalize_credit_owner)
            (canonicalize_as-Keeps (resolve_canonical_identity owner db.agents) owner now db keys)
    ]
