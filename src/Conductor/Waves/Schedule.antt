-- ===== src/Conductor/Waves/Schedule.antt =====
-- The rounds of a decomposition that the validation accepts.

use agentbnb.Prelude.{ℕ, ◌≤◌, ◌≡◌, occurrences, inl, inr, String, []}
use agentbnb.Conductor.Json.{Json}
use agentbnb.Conductor.Validator.{validate_and_normalize_subtasks}
use agentbnb.Conductor.Validator.Plan.{IsPlan, ids_of}
use agentbnb.Conductor.Validator.Checked.{validate-IsPlan}
use agentbnb.Conductor.Waves.{compute_waves}
use agentbnb.Conductor.Waves.Layers.{IsLayered, compute_waves-IsLayered}
use agentbnb.Conductor.Waves.Progress.{concat, compute_waves-all}

pub accepted-IsPlan :
    (raw : Json) (ceiling : ℕ)
    → (validate_and_normalize_subtasks raw ceiling).errors ≡ []
    → IsPlan ceiling (validate_and_normalize_subtasks raw ceiling).valid
accepted-IsPlan raw ceiling h = elim (validate-IsPlan raw ceiling) [
  | inl p ↦ p.1
  | inr p ↦ absurd (p.0 h)
]

-- When the validation of a value reports no error, the rounds computed for the sub-tasks that it
-- returns hold every one of them exactly once and nothing else, and no sub-task is in a round before
-- all its dependencies are in earlier ones.
pub compute_waves-validate :
    (raw : Json) (ceiling : ℕ)
    → (validate_and_normalize_subtasks raw ceiling).errors ≡ []
    → (id : String)
    → (let tasks = (validate_and_normalize_subtasks raw ceiling).valid in
        (occurrences id (concat (compute_waves tasks)) ≡ occurrences id (ids_of tasks))
        × (occurrences id (ids_of tasks) ≤ 1)
        × IsLayered tasks [] (compute_waves tasks))
compute_waves-validate raw ceiling h id =
    let plan = accepted-IsPlan raw ceiling h in
    (compute_waves-all ceiling _ plan id, plan.distinct id, compute_waves-IsLayered _)
