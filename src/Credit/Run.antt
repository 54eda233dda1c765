-- ===== src/Credit/Run.antt =====
-- Actions on the credit database that succeed, with what holds of the database that they leave.
use agentbnb.Prelude.{◌≡◌, ap, ◌∙◌}
use agentbnb.Credit.Db.{Db, ok, Action, continue_with, commit, ◌>>=◌, transaction}

pub record Does {A : Type 0} (m : Action A) (before : Db) (P : A → Db → Type 0) : Type 0 where
  pub value : A
  pub after : Db
  pub runs : m before ≡ (ok value, after)
  pub holds : P value after

module _ {A B : Type 0} {P : A → Db → Type 0} {Q : B → Db → Type 0} where
  pub Does_bind :
      (m : Action A) (f : A → Action B) (db : Db)
      → Does m db P
      → ((a : A) (d : Db) → P a d → Does (f a) d Q)
      → Does (m >>= f) db Q
  Does_bind m f db d k =
      let next = k d.value d.after d.holds in
      record {
        value = next.value;
        after = next.after;
        runs = ap (continue_with f) d.runs ∙ next.runs;
        holds = next.holds;
      }

module _ {A : Type 0} {P : A → Db → Type 0} where
  pub Does_transaction : (m : Action A) (db : Db) → Does m db P → Does (transaction m) db P
  Does_transaction m db d = record {
    value = d.value;
    after = d.after;
    runs = ap (commit db) d.runs;
    holds = d.holds;
  }
