-- ===== src/Credit/Rows.antt =====
-- A property of every row of a table, kept by the statements of the code.
use agentbnb.Prelude.{
  ◌≡◌, Bool, List, [], ◌∷◌, Option, none, some, arith, inl, inr, Bool-cases, All, subst,
}
use agentbnb.Credit.Table.{
  select_first, update_where, delete_where, insert, insert_or_ignore, insert_unless,
}

module _ {R : Type 0} (P : R → Type 0) where
  pub All-select_first :
      (p : R → Bool) (rs : List R) (r : R) → All P rs → select_first p rs ≡ some r → P r
  unfolding select_first
  All-select_first p [] r h e = absurd (cc)
  All-select_first p (x ∷ rs) r (hx, hs) e = elim (Bool-cases (p x)) [
    | inl hit ↦ let same : x ≡ r = ground arith in subst P same hx
    | inr miss ↦ All-select_first p rs r hs (ground arith)
  ]

  pub All-update_where :
      (p : R → Bool) (f : R → R) (rs : List R)
      → ((r : R) → P r → P (f r))
      → All P rs
      → All P (update_where p f rs)
  unfolding update_where
  All-update_where p f [] keep h = h
  All-update_where p f (x ∷ rs) keep (hx, hs) = elim (Bool-cases (p x)) [
    | inl hit ↦ rw (hit, update_where) (keep x hx, All-update_where p f rs keep hs)
    | inr miss ↦ rw (miss, update_where) (hx, All-update_where p f rs keep hs)
  ]

  pub All-delete_where : (p : R → Bool) (rs : List R) → All P rs → All P (delete_where p rs)
  unfolding delete_where
  All-delete_where p [] h = h
  All-delete_where p (x ∷ rs) (hx, hs) = elim (Bool-cases (p x)) [
    | inl hit ↦ rw (hit, delete_where) (All-delete_where p rs hs)
    | inr miss ↦ rw (miss, delete_where) (hx, All-delete_where p rs hs)
  ]

  pub All-insert : (r : R) (rs : List R) → P r → All P rs → All P (insert r rs)
  All-insert r [] new h = (new, h)
  All-insert r (x ∷ rs) new (hx, hs) = (hx, All-insert r rs new hs)

  pub All-insert_or_ignore :
      (p : R → Bool) (r : R) (rs : List R) → P r → All P rs → All P (insert_or_ignore p r rs)
  All-insert_or_ignore p r rs new h = unless (select_first p rs)
    where
      unless : (o : Option R) → All P (insert_unless o r rs)
      unless none = All-insert r rs new h
      unless (some old) = h
