-- ===== src/Credit/History.antt =====
-- The log of the credits as it is read and archived (src/credit/ledger.ts). The archive is the table
-- `credit_transactions_archive`, whose ids are those of rows that left the log, hence new to it.
pub mod Archived
use agentbnb.Prelude.{
  ℕ, zero, suc, Bool, true, ◌&&◌, String, List, [], ◌∷◌, ◌++◌, Option, none, some, ltb, str_eq,
  length, if◌then◌else◌,
}
use agentbnb.Credit.Table.{select_all, delete_where}
use agentbnb.Credit.Order.{order_by}
use agentbnb.Credit.Db.{Db, TxRow, Action, ok, ◌>>=◌}
use agentbnb.Credit.Owner.{canonicalize}

pub record TransactionPage : Type 0 where
  pub limit : Option ℕ
  pub before : Option ℕ
  pub after : Option ℕ

-- `LIMIT`.
unfoldable pub first {ℓ} : {A : Type ℓ} → ℕ → List A → List A
first zero rows = []
first (suc n) [] = []
first (suc n) (r ∷ rows) = r ∷ first n rows

abbrev pub is_before : Option ℕ → TxRow → Bool
is_before none r = true
is_before (some t) r = ltb r.created_at t

abbrev pub is_after : Option ℕ → TxRow → Bool
is_after none r = true
is_after (some t) r = ltb t r.created_at

abbrev pub is_on : String → TransactionPage → TxRow → Bool
is_on owner page r = str_eq r.owner owner && is_before page.before r && is_after page.after r

abbrev pub limit_of : Option ℕ → ℕ
limit_of none = 100
limit_of (some n) = n

-- The statement that is prepared for a page, newest first.
unfoldable pub page_of : String → TransactionPage → List TxRow → List TxRow
unfolding first
page_of owner page rows =
    first (limit_of page.limit)
      (order_by (λ a b. ltb b.created_at a.created_at) (select_all (is_on owner page) rows))

unfoldable pub get_transactions : String → TransactionPage → ℕ → Action (List TxRow)
unfolding page_of
get_transactions owner page now = do
  o ← canonicalize owner now
  λ db. (ok (page_of o page db.transactions), db)

abbrev pub is_older : ℕ → TxRow → Bool
is_older older_than r = ltb r.created_at older_than

-- The number of rows that are moved, the log and the archive.
unfoldable pub archive_transactions : ℕ → Db → List TxRow → ℕ × Db × List TxRow
archive_transactions older_than db archive =
    let moved = select_all (is_older older_than) db.transactions in
    (
      length moved,
      record db { transactions = delete_where (is_older older_than) db.transactions },
      archive ++ moved,
    )
