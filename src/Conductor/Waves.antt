-- ===== src/Conductor/Waves.antt =====
-- src/conductor/pipeline-orchestrator.ts, `computeWaves`: the sub-tasks in rounds, each round those
-- whose dependencies are all in earlier ones. The loop runs on fuel, one for each sub-task.
pub mod Layers
pub mod Progress
pub mod Schedule
use agentbnb.Prelude.{
  ℕ, zero, suc, Bool, String, List, [], ◌∷◌, ◌++◌, all, contains, length, Dict, put, delete,
  if◌then◌else◌,
}
use agentbnb.Conductor.Validator.{SubTask}

-- `new Map(subtasks.map((s) => [s.id, s]))`.
unfoldable pub load : List SubTask → Dict SubTask → Dict SubTask
unfolding put
load [] m = m
load (t ∷ ts) m = load ts (put t.id t m)

unfoldable pub deps_resolved : List String → SubTask → Bool
unfolding contains
deps_resolved completed t = all (λ dep. contains dep completed) t.depends_on

unfoldable pub next_wave : List String → Dict SubTask → List String
unfolding deps_resolved
next_wave completed [] = []
next_wave completed ((id, t) ∷ rest) =
    let wave = next_wave completed rest in if deps_resolved completed t then id ∷ wave else wave

unfoldable pub delete_all : List String → Dict SubTask → Dict SubTask
unfolding delete
delete_all [] m = m
delete_all (id ∷ ids) m = delete_all ids (delete id m)

unfoldable pub waves_from : ℕ → List String → Dict SubTask → List (List String)
unfolding next_wave delete_all
waves_from zero completed remaining = []
waves_from (suc fuel) completed [] = []
waves_from (suc fuel) completed (e ∷ es) = elim (next_wave completed (e ∷ es)) [
  | [] ↦ []
  | id ∷ ids ↦ (id ∷ ids) ∷ waves_from fuel (completed ++ id ∷ ids) (delete_all (id ∷ ids) (e ∷ es))
]

unfoldable pub compute_waves : List SubTask → List (List String)
unfolding load waves_from
compute_waves ts = let remaining = load ts [] in waves_from (length remaining) [] remaining
