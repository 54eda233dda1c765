-- ===== src/Conductor/Orchestrator/Rounds.antt =====
-- An orchestration that reports success has a result for every sub-task of every round.
use mathlib.Core.List.{append-eq-nil_iff}
use agentbnb.Prelude.{
  ℕ, suc, ◌+◌, max, min, ◌≤◌, ◌<◌, ◌≡◌, refl, ap, ◌∙◌, true, Bool-cases, Option-cases, inl, inr,
  String, Option, List, [], ◌∷◌, ◌++◌, Dict, get, put, keys, occurrences-keys-put, occurrences,
  occurrences-append, arith,
}
use agentbnb.Conductor.Json.{Json}
use agentbnb.Conductor.Validator.{SubTask, is_empty, validate_and_normalize_subtasks}
use agentbnb.Conductor.Validator.Plan.{ids_of}
use agentbnb.Conductor.Waves.{compute_waves, load}
use agentbnb.Conductor.Waves.Progress.{concat}
use agentbnb.Conductor.Waves.Schedule.{compute_waves-validate}
use agentbnb.Conductor.Orchestrator.{
  Network, Settlement, fulfilled, rejected, failed, timed_out, budget_exceeded, Run, Options,
  AgentMatch, is_exhausted, affordable_ids, team_agents, prepare, execute_all, collect, run_wave,
  run_waves, fresh_run, orchestrate, success,
}
use agentbnb.Conductor.Orchestrator.Settled.{settled_ids, task_ids, execute_all-ids}

-- No error at the end means none before.
snoc_not_empty : {A : Type 0} (xs : List A) (x : A) → xs ++ x ∷ [] ≡ [] → ⊥
snoc_not_empty [] x h = ground (arith, h)
snoc_not_empty (y ∷ ys) x h = ground (arith, h)

is_empty-nil : {A : Type 0} (xs : List A) → is_empty xs ≡ true → xs ≡ []
is_empty-nil [] h = refl
is_empty-nil (x ∷ xs) h = ground (arith, h)

affordable_ids-all :
    (limit : Option ℕ) (total : ℕ) (matches : Dict AgentMatch) (ids : List String)
    → (affordable_ids limit total matches ids).1 ≡ []
    → (affordable_ids limit total matches ids).0 ≡ ids
unfolding affordable_ids
affordable_ids-all limit total matches [] h = refl
affordable_ids-all limit total matches (id ∷ ids) h =
    ground (arith, h, affordable_ids-all limit total matches ids)

module _ {R : Type 0} (net : Network R) where
  prepare-all :
      (tasks : Dict SubTask) (team : Dict String) (matches : Dict AgentMatch) (ids : List String)
      → (prepare net tasks team matches ids).1 ≡ []
      → task_ids (prepare net tasks team matches ids).0 ≡ ids
  unfolding prepare
  prepare-all tasks team matches [] h = refl
  prepare-all tasks team matches (id ∷ ids) h = elim (Option-cases (get id matches)) [
    | inl e ↦ ground (arith, h, e)
    | inr (m, e) ↦ ground (arith, h, e, prepare-all tasks team matches ids)
  ]

  collect-results :
      (w : String) (ss : List (Settlement R)) (s : Run R)
      → (collect net ss s).errors ≡ []
      → (s.errors ≡ [])
        × (max (occurrences w (keys s.results)) (min 1 (occurrences w (settled_ids ss)))
            ≤ occurrences w (keys (collect net ss s).results))
  unfolding collect occurrences
  collect-results w [] s h = (h, omega arith)
  collect-results w (fulfilled id r c ∷ ss) s h =
      let ih =
        collect-results w ss
          (record s { results = put id r s.results; total_credits = s.total_credits + c }) h in
      (ih.0, ground (arith, ih.1, occurrences-keys-put w id r s.results))
  collect-results w (rejected id ∷ ss) s h =
      let ih = collect-results w ss (record s { errors = s.errors ++ failed id ∷ [] }) h in
      absurd (snoc_not_empty s.errors (failed id) ih.0)

  run_wave-results :
      (w : String) (o : Options) (wave : List String) (s : Run R)
      → (run_wave net o wave s).errors ≡ []
      → (s.errors ≡ [])
        × (max (occurrences w (keys s.results)) (min 1 (occurrences w wave))
            ≤ occurrences w (keys (run_wave net o wave s).results))
  unfolding run_wave
  run_wave-results w o wave s h =
      let a = affordable_ids o.max_budget s.total_credits o.matches wave in
      let p = prepare net (load o.subtasks []) (team_agents o.team []) o.matches a.0 in
      let settlements = execute_all net s.results p.0 in
      let c = collect-results w settlements (record s { errors = s.errors ++ (a.1 ++ p.1) }) h in
      let none_before = append-eq-nil_iff.0 c.0 in
      let none_now = append-eq-nil_iff.0 none_before.1 in
      let same =
        prepare-all (load o.subtasks []) (team_agents o.team []) o.matches a.0 none_now.1
        ∙ affordable_ids-all o.max_budget s.total_credits o.matches wave none_now.0 in
      (
        none_before.0,
        omega (arith, c.1, execute_all-ids net w s.results p.0, ap (occurrences w) same),
      )

  run_waves-results :
      (w : String) (o : Options) (n : ℕ) (waves : List (List String)) (s : Run R)
      → (run_waves net o n waves s).errors ≡ []
      → (s.errors ≡ [])
        × (max (occurrences w (keys s.results)) (min 1 (occurrences w (concat waves)))
            ≤ occurrences w (keys (run_waves net o n waves s).results))
  unfolding run_waves occurrences
  run_waves-results w o n [] s h = (h, omega arith)
  run_waves-results w o n (wave ∷ waves) s h = elim (Bool-cases (net.past_deadline n)) [
    | inl e ↦ absurd (snoc_not_empty s.errors timed_out (ground (arith, h, e)))
    | inr e ↦ elim (Bool-cases (is_exhausted o.max_budget s.total_credits)) [
      | inl b ↦ absurd (snoc_not_empty s.errors budget_exceeded (ground (arith, h, e, b)))
      | inr b ↦
          let ih =
            run_waves-results w o (suc n) waves (run_wave net o wave s) (ground (arith, h, e, b)) in
          let first = run_wave-results w o wave s ih.0 in
          (first.0, ground (arith, e, b, first.1, ih.1, occurrences-append w wave (concat waves)))
    ]
  ]

-- When a decomposition is accepted and its orchestration reports success, every one of its sub-tasks
-- has a result, whatever the other agents answer, the clock says and the budget is.
pub orchestrate-results :
    {R : Type 0} (net : Network R) (raw : Json) (ceiling : ℕ) (o : Options)
    → (validate_and_normalize_subtasks raw ceiling).errors ≡ []
    → o.subtasks ≡ (validate_and_normalize_subtasks raw ceiling).valid
    → success net (orchestrate net o) ≡ true
    → (id : String) → 0 < occurrences id (ids_of o.subtasks)
    → 0 < occurrences id (keys (orchestrate net o).results)
unfolding orchestrate
orchestrate-results net raw ceiling o h e ok id present =
    let run = orchestrate net o in
    let all =
      run_waves-results net id o 0 (compute_waves o.subtasks) (fresh_run net)
        (is_empty-nil run.errors ok) in
    let scheduled = compute_waves-validate raw ceiling h id in
    let count : List SubTask → ℕ = λ ts. occurrences id (concat (compute_waves ts)) in
    omega (arith, all.1, scheduled.0, present, ap count e, ap (λ ts. occurrences id (ids_of ts)) e)
