-- ===== src/Credit/Budget.antt =====
-- src/credit/budget.ts: the reserve that automatic spending must leave. The manager's database, owner
-- and reserve are arguments; the default reserve of 20 is that of the code without `@agentbnb/core`.
pub mod Reserve
use agentbnb.Prelude.{ℕ, ◌-◌, Bool, true, String, ltb, leb, if◌then◌else◌}
use agentbnb.Credit.Db.{Action, pure, ◌>>=◌}
use agentbnb.Credit.Ledger.{get_balance}

abbrev pub default_reserve : ℕ
default_reserve = 20

-- `Math.max(0, balance - reserve)`, which is subtraction on natural numbers.
unfoldable pub available_credits : String → ℕ → ℕ → Action ℕ
unfolding get_balance
available_credits owner reserve now = do balance ← get_balance owner now; pure (balance - reserve)

-- The balance is read only for a positive amount.
unfoldable pub can_spend : String → ℕ → ℕ → ℕ → Action Bool
unfolding available_credits
can_spend owner reserve amount now =
    if ltb 0 amount
    then (do available ← available_credits owner reserve now; pure (leb amount available))
    else pure true
