-- ===== src/Conductor/Teams/Cheapest.antt =====
-- The strategies of src/conductor/team-formation.ts.
use agentbnb.Prelude.{◌≤◌, List, [], ◌∷◌, arith, All}
use agentbnb.Autonomy.Scores.{Double}
use agentbnb.Conductor.Teams.{RankedMatch, cost_optimized, select_by_strategy, reduce, cheaper}

module _ {F : Type 0} (d : Double F) where
  reduce-le :
      (best : RankedMatch F) (ms : List (RankedMatch F))
      → ((reduce d (cheaper d) best ms).credits ≤ best.credits)
        × All (λ m. (reduce d (cheaper d) best ms).credits ≤ m.credits) ms
  reduce-le best [] = (omega arith, tt)
  reduce-le best (m ∷ ms) =
      let rest = reduce-le (cheaper d best m) ms in
      let low = cheaper-le best m in
      (omega (arith, rest.0, low.0), (omega (arith, rest.0, low.1), rest.1))
    where
      cheaper-le :
          (best m : RankedMatch F)
          → ((cheaper d best m).credits ≤ best.credits) × ((cheaper d best m).credits ≤ m.credits)
      cheaper-le best m = ground arith

  -- The match that is selected for the least cost is no dearer than any match it is selected from.
  pub select_by_strategy-cheapest :
      (m : RankedMatch F) (ms : List (RankedMatch F))
      → All (λ x. (select_by_strategy d cost_optimized m ms).credits ≤ x.credits) (m ∷ ms)
  unfolding select_by_strategy
  select_by_strategy-cheapest m ms = (reduce-le m (m ∷ ms)).1
