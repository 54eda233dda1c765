-- ===== src/Conductor/Budget/Ceiling.antt =====
-- What the checks of src/conductor/budget-controller.ts guarantee of a budget that they pass.
use agentbnb.Prelude.{
  ℕ, ◌+◌, ◌-◌, ◌≤◌, ◌<◌, ◌≡◌, ap, sym, ◌∙◌, inl, inr, true, false, String, List, [], ◌∷◌, arith,
  leb, Bool-cases,
}
use agentbnb.Credit.Db.{Db, ok}
use agentbnb.Credit.Owner.Canonical.{IsCanonical}
use agentbnb.Credit.Budget.{can_spend}
use agentbnb.Credit.Budget.Reserve.{credits_of, can_spend_runs, ok_injective}
use agentbnb.Conductor.Budget.{
  MatchResult, Spending, set_spending, ExecutionBudget, fee, add_matches, calculate_budget,
  can_execute,
}

-- The credits of all sub-tasks of a map, and of all matches.
unfoldable pub spent : Spending → ℕ
spent [] = 0
spent ((j, u) ∷ m) = u + spent m

unfoldable pub offered : List MatchResult → ℕ
offered [] = 0
offered (x ∷ xs) = x.credits + offered xs

spent-set_spending : (k : String) (v : ℕ) (m : Spending) → spent (set_spending k v m) ≤ spent m + v
unfolding spent set_spending
spent-set_spending k v [] = omega arith
spent-set_spending k v ((j, u) ∷ m) = ground (arith, spent-set_spending k v m)

add_matches-total :
    (xs : List MatchResult) (m : Spending) (total : ℕ)
    → (add_matches xs m total).1 ≡ total + offered xs
unfolding add_matches offered
add_matches-total [] m total = omega arith
add_matches-total (x ∷ xs) m total =
    omega (arith, add_matches-total xs (set_spending x.subtask_id x.credits m) (total + x.credits))

add_matches-spent :
    (xs : List MatchResult) (m : Spending) (total : ℕ)
    → spent (add_matches xs m total).0 ≤ spent m + offered xs
unfolding add_matches offered
add_matches-spent [] m total = omega arith
add_matches-spent (x ∷ xs) m total = omega (
  arith,
  add_matches-spent xs (set_spending x.subtask_id x.credits m) (total + x.credits),
  spent-set_spending x.subtask_id x.credits m,
)

calculate_budget-total :
    (max_budget : ℕ) (matches : List MatchResult)
    → let b = calculate_budget max_budget matches in
      (b.estimated_total ≡ offered matches + fee)
      × (spent b.per_task_spending + fee ≤ b.estimated_total)
unfolding calculate_budget spent
calculate_budget-total max_budget matches = (
  omega (arith, add_matches-total matches [] 0),
  omega (arith, add_matches-total matches [] 0, add_matches-spent matches [] 0),
)

module _ (owner : String) (reserve max_budget : ℕ) (matches : List MatchResult) (now : ℕ) (db : Db)
    (canonical : IsCanonical owner db.agents) where
  can_execute_passes :
      (b : ExecutionBudget)
      → (can_execute owner reserve b now db).0 ≡ ok true
      → (b.requires_approval ≡ false)
        × ((can_spend owner reserve b.estimated_total now db).0 ≡ ok true)
  unfolding can_execute
  can_execute_passes b h = elim (Bool-cases b.requires_approval) [
    | inl needs ↦ absurd (ground arith)
    | inr free ↦ (free, ground arith)
  ]

  -- A budget of matches that a canonical owner may execute without approval is the sum of all offers and the fee,
  -- is at least what the map of sub-tasks adds up to with the fee, is at most the ceiling, and leaves the
  -- reserve in the balance.
  pub can_execute_within :
      let b = calculate_budget max_budget matches in
      (can_execute owner reserve b now db).0 ≡ ok true
      → (b.estimated_total ≡ offered matches + fee)
        × (spent b.per_task_spending + fee ≤ b.estimated_total)
        × (b.estimated_total ≤ max_budget)
        × (b.estimated_total + reserve ≤ credits_of owner db.balances)
  unfolding calculate_budget
  can_execute_within h =
      let b = calculate_budget max_budget matches in
      let (total, listed) = calculate_budget-total max_budget matches in
      let (free, spendable) = can_execute_passes b h in
      let positive : 0 < b.estimated_total = omega (arith, total) in
      let permits : leb b.estimated_total (credits_of owner db.balances - reserve) ≡ true =
        ok_injective (
          sym (
            ap (λ q. q.0)
              (can_spend_runs owner now db canonical reserve b.estimated_total positive))
          ∙ spendable) in
      (total, listed, ground (arith, free), ground (arith, permits, positive))
