-- ===== src/Credit/History/Archived.antt =====
-- What archiving keeps of the log (src/credit/ledger.ts).
use agentbnb.Prelude.{
  ℕ, ◌≤◌, ◌≡◌, refl, ap, Bool, true, false, String, List, [], ◌∷◌, some, ltb, arith,
}
use agentbnb.Credit.Table.{select_all, delete_where}
use agentbnb.Credit.Order.{order_by}
use agentbnb.Credit.Db.{Db, TxRow}
use agentbnb.Credit.History.{
  TransactionPage, first, is_on, is_after, page_of, is_older, archive_transactions, limit_of,
}

module _ {R : Type 0} where
  select_all-delete_where :
      (p q : R → Bool) (rows : List R)
      → ((r : R) → q r ≡ true → p r ≡ false)
      → select_all p (delete_where q rows) ≡ select_all p rows
  unfolding select_all delete_where
  select_all-delete_where p q [] apart = refl
  select_all-delete_where p q (r ∷ rows) apart =
      ground (arith, apart r, select_all-delete_where p q rows apart)

-- A page that starts after the time of archiving is the same before and after it.
pub page_of-archive_transactions :
    (older_than start : ℕ) (db : Db) (archive : List TxRow) (owner : String)
    (page : TransactionPage)
    → page.after ≡ some start
    → older_than ≤ start
    → page_of owner page (archive_transactions older_than db archive).1.transactions
      ≡ page_of owner page db.transactions
unfolding page_of archive_transactions
page_of-archive_transactions older_than start db archive owner page from late =
    ap (λ rows. first (limit_of page.limit) (order_by (λ a b. ltb b.created_at a.created_at) rows))
      (select_all-delete_where (is_on owner page) (is_older older_than) db.transactions apart)
  where
    recent : (r : TxRow) → ltb r.created_at older_than ≡ true → is_after page.after r ≡ false
    recent r old = rw from (ground (arith, old, late))

    apart : (r : TxRow) → is_older older_than r ≡ true → is_on owner page r ≡ false
    apart r old = ground (arith, recent r old)
