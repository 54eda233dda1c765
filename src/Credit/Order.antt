-- ===== src/Credit/Order.antt =====
-- `ORDER BY` of the statements that the code prepares: rows that compare alike stay in the order of
-- insertion.
use agentbnb.Prelude.{suc, ◌≡◌, refl, Bool, List, [], ◌∷◌, arith, if◌then◌else◌}
use agentbnb.Credit.Table.{count}

module _ {ℓ} {R : Type ℓ} where
  -- A row in its place in front of those that are not before it.
  unfoldable pub place : (R → R → Bool) → R → List R → List R
  place before r [] = r ∷ []
  place before r (x ∷ xs) =
      let rest = place before r xs in if before x r then x ∷ rest else r ∷ x ∷ xs

  unfoldable pub order_by : (R → R → Bool) → List R → List R
  unfolding place
  order_by before [] = []
  order_by before (r ∷ rs) = place before r (order_by before rs)

  count-place :
      (before : R → R → Bool) (p : R → Bool) (r : R) (xs : List R)
      → count p (place before r xs) ≡ (if p r then suc (count p xs) else count p xs)
  unfolding count place
  count-place before p r [] = refl
  count-place before p r (x ∷ xs) = ground (arith, count-place before p r xs)

  pub count-order_by :
      (before : R → R → Bool) (p : R → Bool) (rows : List R)
      → count p (order_by before rows) ≡ count p rows
  unfolding count order_by
  count-order_by before p [] = refl
  count-order_by before p (r ∷ rs) =
      ground (arith, count-place before p r (order_by before rs), count-order_by before p rs)
