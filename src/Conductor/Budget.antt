-- ===== src/Conductor/Budget.antt =====
-- src/conductor/budget-controller.ts: the cost of an orchestration is computed before it runs, and
-- compared with a ceiling and with the reserve. The fee is that of the code without `@agentbnb/core`.
pub mod Ceiling
use agentbnb.Prelude.{ℕ, ◌+◌, Bool, true, false, String, List, [], ◌∷◌, ltb, str_eq, if◌then◌else◌}
use agentbnb.Credit.Db.{Action, pure}
use agentbnb.Credit.Budget.{can_spend}

-- The fields of a match that the controller reads.
pub record MatchResult : Type 0 where
  pub subtask_id : String
  pub credits : ℕ

-- A `Map` from sub-tasks to credits, in the order of insertion.
abbrev pub Spending : Type 0
Spending = List (String × ℕ)

-- `Map.prototype.set`: an old key keeps its place.
unfoldable pub set_spending : String → ℕ → Spending → Spending
set_spending k v [] = (k, v) ∷ []
set_spending k v ((j, u) ∷ m) =
    let rest = set_spending k v m in if str_eq j k then (j, v) ∷ m else (j, u) ∷ rest

pub record ExecutionBudget : Type 0 where
  pub estimated_total : ℕ
  pub max_budget : ℕ
  pub orchestration_fee : ℕ
  pub per_task_spending : Spending
  pub requires_approval : Bool

abbrev pub fee : ℕ
fee = 5

-- The loop over the matches, with the map and the sum so far.
unfoldable pub add_matches : List MatchResult → Spending → ℕ → Spending × ℕ
unfolding set_spending
add_matches [] m total = (m, total)
add_matches (x ∷ xs) m total =
    add_matches xs (set_spending x.subtask_id x.credits m) (total + x.credits)

unfoldable pub calculate_budget : ℕ → List MatchResult → ExecutionBudget
unfolding add_matches
calculate_budget max_budget matches =
    let (m, total) = add_matches matches [] 0 in
    record {
      estimated_total = total + fee;
      max_budget = max_budget;
      orchestration_fee = fee;
      per_task_spending = m;
      requires_approval = ltb max_budget (total + fee);
    }

-- The underlying manager has this owner and reserve.
unfoldable pub can_execute : String → ℕ → ExecutionBudget → ℕ → Action Bool
can_execute owner reserve budget now =
    if budget.requires_approval
    then pure false
    else can_spend owner reserve budget.estimated_total now

unfoldable pub approve_and_check : String → ℕ → ExecutionBudget → ℕ → Action Bool
approve_and_check owner reserve budget now = can_spend owner reserve budget.estimated_total now
