-- ===== src/Credit/Table.antt =====
-- A SQLite table as the list of its rows in the order of insertion, with the statements that the
-- code prepares: a WHERE clause is a Boolean test of a row.
use agentbnb.Prelude.{
  ℕ, suc, ◌+◌, ◌≤◌, ◌≡◌, refl, Bool, true, false, List, [], ◌∷◌, ◌++◌, Option, none, some, arith,
  inl, inr, Bool-cases, if◌then◌else◌,
}

module _ {ℓ} {R : Type ℓ} where
  -- `SELECT … WHERE p` with `.get()`: the first row.
  unfoldable pub select_first : (R → Bool) → List R → Option R
  select_first p [] = none
  select_first p (r ∷ rs) = if p r then some r else select_first p rs

  -- `SELECT COUNT(*) … WHERE p`.
  unfoldable pub count : (R → Bool) → List R → ℕ
  count p [] = 0
  count p (r ∷ rs) = if p r then suc (count p rs) else count p rs

  -- `SELECT … WHERE p` with `.all()`.
  unfoldable pub select_all : (R → Bool) → List R → List R
  select_all p [] = []
  select_all p (r ∷ rs) = let rest = select_all p rs in if p r then r ∷ rest else rest

  -- `UPDATE … SET … WHERE p`.
  unfoldable pub update_where : (R → Bool) → (R → R) → List R → List R
  update_where p f [] = []
  update_where p f (r ∷ rs) = (if p r then f r else r) ∷ update_where p f rs

  -- `DELETE … WHERE p`.
  unfoldable pub delete_where : (R → Bool) → List R → List R
  delete_where p [] = []
  delete_where p (r ∷ rs) = let rest = delete_where p rs in if p r then rest else r ∷ rest

  -- `INSERT`.
  abbrev pub insert : R → List R → List R
  insert r rs = rs ++ r ∷ []

  abbrev pub insert_unless : Option R → R → List R → List R
  insert_unless none r rs = insert r rs
  insert_unless (some old) r rs = rs

  -- `INSERT OR IGNORE`, where `p` tests for the primary key of the new row.
  abbrev pub insert_or_ignore : (R → Bool) → R → List R → List R
  insert_or_ignore p r rs = insert_unless (select_first p rs) r rs

  -- `SELECT SUM(f)`.
  unfoldable pub sum_of : (R → ℕ) → List R → ℕ
  sum_of f [] = 0
  sum_of f (r ∷ rs) = f r + sum_of f rs

  pub sum_of-insert : (f : R → ℕ) (r : R) (rs : List R) → sum_of f (insert r rs) ≡ sum_of f rs + f r
  unfolding sum_of
  sum_of-insert f r [] = omega arith
  sum_of-insert f r (x ∷ rs) = omega (arith, sum_of-insert f r rs)

  pub count-insert :
      (p : R → Bool) (r : R) (rs : List R)
      → count p (insert r rs) ≡ (if p r then suc (count p rs) else count p rs)
  unfolding count
  count-insert p r [] = refl
  count-insert p r (x ∷ rs) = ground (arith, count-insert p r rs)

  pub select_first-none : (p : R → Bool) (rs : List R) → select_first p rs ≡ none → count p rs ≡ 0
  unfolding select_first count
  select_first-none p [] h = refl
  select_first-none p (r ∷ rs) h = ground (arith, select_first-none p rs)

  pub select_first-some :
      (p : R → Bool) (rs : List R) (r : R)
      → select_first p rs ≡ some r
      → (p r ≡ true) × (1 ≤ count p rs)
  unfolding select_first count
  select_first-some p [] r h = cc
  select_first-some p (x ∷ rs) r h = ground (arith, select_first-some p rs r)

  pub select_first_of_count :
      (p : R → Bool) (rs : List R) → 1 ≤ count p rs → (r : R) × (select_first p rs ≡ some r)
  unfolding select_first count
  select_first_of_count p [] h = absurd (omega arith)
  select_first_of_count p (r ∷ rs) h = elim (Bool-cases (p r)) [
    | inl e ↦ (r, ground arith)
    | inr e ↦ let (x, q) = select_first_of_count p rs (ground arith) in (x, ground arith)
  ]

  pub update_where_none :
      (p : R → Bool) (f : R → R) (rs : List R) → count p rs ≡ 0 → update_where p f rs ≡ rs
  unfolding count update_where
  update_where_none p f [] h = refl
  update_where_none p f (r ∷ rs) h = ground (arith, update_where_none p f rs)

  -- The sum of a column after an update of the one row that the clause selects.
  pub sum_of-update_where :
      (p : R → Bool) (g : R → R) (f : R → ℕ) (less more : ℕ) (rs : List R)
      → ((r : R) → p r ≡ true → f (g r) + less ≡ f r + more)
      → count p rs ≡ 1
      → sum_of f (update_where p g rs) + less ≡ sum_of f rs + more
  unfolding count update_where sum_of
  sum_of-update_where p g f less more [] change h = absurd (omega arith)
  sum_of-update_where p g f less more (r ∷ rs) change h =
      ground
        (arith, change r, update_where_none p g rs, sum_of-update_where p g f less more rs change)

  pub sum_of-update_same :
      (p : R → Bool) (g : R → R) (f : R → ℕ) (rs : List R)
      → ((r : R) → f (g r) ≡ f r)
      → sum_of f (update_where p g rs) ≡ sum_of f rs
  unfolding update_where sum_of
  sum_of-update_same p g f [] same = refl
  sum_of-update_same p g f (r ∷ rs) same = ground (arith, same r, sum_of-update_same p g f rs same)

  -- An update that leaves a test alone leaves its count alone.
  pub count-update_where :
      (p q : R → Bool) (g : R → R) (rs : List R)
      → ((r : R) → p r ≡ true → q (g r) ≡ q r)
      → count q (update_where p g rs) ≡ count q rs
  unfolding count update_where
  count-update_where p q g [] same = refl
  count-update_where p q g (r ∷ rs) same = ground (arith, same r, count-update_where p q g rs same)

  pub sum_of-delete_where :
      (p : R → Bool) (f : R → ℕ) (rs : List R) (r : R)
      → select_first p rs ≡ some r
      → count p rs ≡ 1
      → sum_of f (delete_where p rs) + f r ≡ sum_of f rs
  unfolding count delete_where sum_of select_first
  sum_of-delete_where p f [] r e h = absurd (omega arith)
  sum_of-delete_where p f (x ∷ rs) r e h =
      ground (arith, delete_where_none rs, sum_of-delete_where p f rs r)
    where
      delete_where_none : (l : List R) → count p l ≡ 0 → delete_where p l ≡ l
      delete_where_none [] z = refl
      delete_where_none (y ∷ l) z = ground (arith, delete_where_none l)

  pub count-delete_where-le :
      (p q : R → Bool) (rs : List R) → count q (delete_where p rs) ≤ count q rs
  unfolding count delete_where
  count-delete_where-le p q [] = omega arith
  count-delete_where-le p q (r ∷ rs) = ground (arith, count-delete_where-le p q rs)

  pub count-delete_where_self : (p : R → Bool) (rs : List R) → count p (delete_where p rs) ≡ 0
  unfolding count delete_where
  count-delete_where_self p [] = refl
  count-delete_where_self p (r ∷ rs) = ground (arith, count-delete_where_self p rs)

  -- An update touches no row that another test selects, before or after.
  pub select_first-update_where_other :
      (p q : R → Bool) (g : R → R) (rs : List R)
      → ((r : R) → p r ≡ true → (q r ≡ false) × (q (g r) ≡ false))
      → select_first q (update_where p g rs) ≡ select_first q rs
  unfolding select_first update_where
  select_first-update_where_other p q g [] other = refl
  select_first-update_where_other p q g (r ∷ rs) other =
      ground (arith, other r, select_first-update_where_other p q g rs other)

  pub count-update_where-le_add :
      (p q : R → Bool) (g : R → R) (rs : List R)
      → count q (update_where p g rs) ≤ count q rs + count p rs
  unfolding count update_where
  count-update_where-le_add p q g [] = omega arith
  count-update_where-le_add p q g (r ∷ rs) = ground (arith, count-update_where-le_add p q g rs)

  pub count-update_where-le :
      (p q : R → Bool) (g : R → R) (rs : List R)
      → ((r : R) → q (g r) ≡ false)
      → count q (update_where p g rs) ≤ count q rs
  unfolding count update_where
  count-update_where-le p q g [] never = omega arith
  count-update_where-le p q g (r ∷ rs) never =
      ground (arith, never r, count-update_where-le p q g rs never)

-- A column of the row that is found, after an update that leaves the column and the test alone.
abbrev pub column {ℓ κ} : {R : Type ℓ} {A : Type κ} → (R → A) → Option R → Option A
column f none = none
column f (some r) = some (f r)

pub column-update_where {ℓ κ} :
    {R : Type ℓ} {A : Type κ} (p q : R → Bool) (g : R → R) (f : R → A) (rs : List R)
    → ((r : R) → q (g r) ≡ q r)
    → ((r : R) → f (g r) ≡ f r)
    → column f (select_first q (update_where p g rs)) ≡ column f (select_first q rs)
unfolding select_first update_where
column-update_where p q g f [] same_test same = refl
column-update_where p q g f (r ∷ rs) same_test same =
    ground (arith, same_test r, same r, column-update_where p q g f rs same_test same)

-- The sum of a column after an update of the one row that is found.
pub sum_of-update_found {ℓ} :
    {R : Type ℓ} (p : R → Bool) (g : R → R) (f : R → ℕ) (rs : List R) (r : R)
    → select_first p rs ≡ some r
    → count p rs ≡ 1
    → sum_of f (update_where p g rs) + f r ≡ sum_of f rs + f (g r)
unfolding select_first count update_where sum_of
sum_of-update_found p g f [] r e h = cc
sum_of-update_found p g f (x ∷ rs) r e h =
    ground (arith, update_where_none p g rs, sum_of-update_found p g f rs r)

pub column-inverse {ℓ κ} :
    {R : Type ℓ} {A : Type κ} (f : R → A) (o : Option R) (a : A)
    → column f o ≡ some a
    → (r : R) × (o ≡ some r) × (f r ≡ a)
column-inverse f none a h = cc
column-inverse f (some r) a h = (r, refl, cc)

pub select_first-update_where_self {ℓ} :
    {R : Type ℓ} (p : R → Bool) (g : R → R) (rs : List R) (r : R)
    → ((r : R) → p (g r) ≡ p r)
    → select_first p rs ≡ some r
    → select_first p (update_where p g rs) ≡ some (g r)
unfolding select_first update_where
select_first-update_where_self p g [] r same h = cc
select_first-update_where_self p g (x ∷ rs) r same h =
    ground (arith, same x, select_first-update_where_self p g rs r same)

pub select_first-insert_new {ℓ} :
    {R : Type ℓ} (p : R → Bool) (r : R) (rs : List R)
    → select_first p rs ≡ none
    → p r ≡ true
    → select_first p (insert r rs) ≡ some r
unfolding select_first
select_first-insert_new p r [] e h = ground arith
select_first-insert_new p r (x ∷ rs) e h = ground (arith, select_first-insert_new p r rs)
