-- ===== src/Conductor/Orchestrator/Spending.antt =====
-- What an orchestration spends: every task of a round fits in the budget alone, so that a round of
-- several tasks may exceed it together.
use agentbnb.Prelude.{
  ℕ, zero, suc, ◌+◌, ◌*◌, ◌-◌, ◌≤◌, ◌≡◌, Bool-cases, Option-cases, inl, inr, String, some, List, [],
  ◌∷◌, ◌++◌, Dict, get, All, All-get, length, arith,
}
use agentbnb.Conductor.Validator.{SubTask}
use agentbnb.Conductor.Waves.{compute_waves, load}
use agentbnb.Conductor.Orchestrator.{
  Network, Run, Options, AgentMatch, Alternative, is_over, is_exhausted, affordable_ids,
  team_agents, prepare, execute_all, run_wave, run_waves, fresh_run, orchestrate,
}
use agentbnb.Conductor.Orchestrator.Settled.{settled_ids, task_ids}
use agentbnb.Conductor.Orchestrator.Costs.{
  CostsAtMost, execute_all-cost, collect-total, length-execute_all,
}

-- No alternative costs more than the agent that was selected.
abbrev pub HasFairAlternatives : Dict AgentMatch → Type 0
HasFairAlternatives matches = All (λ e. All (λ a. a.credits ≤ e.1.credits) e.1.alternatives) matches

-- Within the limit, the price of the selected agent can be paid.
abbrev CanPay : ℕ → ℕ → Dict AgentMatch → String → Type 0
CanPay limit total matches id =
    (m : AgentMatch) → get id matches ≡ some m → total + m.credits ≤ limit

affordable-CanPay :
    (limit total : ℕ) (matches : Dict AgentMatch) (ids : List String)
    → All (CanPay limit total matches) (affordable_ids (some limit) total matches ids).0
      × (length (affordable_ids (some limit) total matches ids).0 ≤ length ids)
unfolding affordable_ids
affordable-CanPay limit total matches [] = (tt, omega arith)
affordable-CanPay limit total matches (id ∷ ids) =
    let ih = affordable-CanPay limit total matches ids in
    elim (Bool-cases (is_over (some limit) total (get id matches))) [
      | inl e ↦ rw e (ih.0, omega (arith, ih.1))
      | inr e ↦ rw e (((λ m f. ground (arith, e, f)), ih.0), omega (arith, ih.1))
    ]

weaken-All :
    (n k : ℕ) (alts : List Alternative)
    → n ≤ k
    → All (λ a. a.credits ≤ n) alts
    → All (λ a. a.credits ≤ k) alts
weaken-All n k [] le h = tt
weaken-All n k (a ∷ alts) le h = (omega (arith, h.0, le), weaken-All n k alts le h.1)

module _ {R : Type 0} (net : Network R) where
  prepare-Cheap :
      (limit total : ℕ) (tasks : Dict SubTask) (team : Dict String) (matches : Dict AgentMatch)
      (ids : List String)
      → HasFairAlternatives matches
      → All (CanPay limit total matches) ids
      → All
          (λ pt. CostsAtMost (limit - total) pt.agent_match)
          (prepare net tasks team matches ids).0
        × (length (task_ids (prepare net tasks team matches ids).0) ≤ length ids)
  unfolding prepare
  prepare-Cheap limit total tasks team matches [] fair h = (tt, omega arith)
  prepare-Cheap limit total tasks team matches (id ∷ ids) fair h =
      let ih = prepare-Cheap limit total tasks team matches ids fair h.1 in
      elim (Option-cases (get id matches)) [
        | inl e ↦ rw (e, prepare) (ih.0, omega (arith, ih.1))
        | inr (m, e) ↦
            let pays : m.credits ≤ limit - total = omega (arith, h.0 m e) in
            let alts =
              All-get (λ m. All (λ a. a.credits ≤ m.credits) m.alternatives) id matches m fair e in
            rw (e, prepare)
              (
                ((pays, weaken-All m.credits (limit - total) m.alternatives pays alts), ih.0),
                omega (arith, ih.1),
              )
      ]

mul_mono_right : (d l k : ℕ) → l ≤ k → d * l ≤ d * k
mul_mono_right d zero k h = omega arith
mul_mono_right d (suc l) zero h = absurd (omega (arith, h))
mul_mono_right d (suc l) (suc k) h = omega (arith, mul_mono_right d l k (omega (arith, h)))

mul_mono_left : (d n k : ℕ) → d ≤ n → d * k ≤ n * k
mul_mono_left d n zero h = omega arith
mul_mono_left d n (suc k) h = omega (arith, mul_mono_left d n k h, h)

-- A round that starts below the limit, with at most so much for each of its tasks.
round_bound :
    (limit total l width : ℕ)
    → total ≤ limit
    → l ≤ suc width
    → total + (limit - total) * l ≤ limit * suc width
round_bound limit total l width below few = omega (
  arith,
  below,
  mul_mono_right (limit - total) l (suc width) few,
  mul_mono_left (limit - total) limit width (omega arith),
)

module _ {R : Type 0} (net : Network R) (o : Options) (limit width : ℕ)
    (limited : o.max_budget ≡ some limit) (fair : HasFairAlternatives o.matches) where
  run_wave-total :
      (wave : List String) (s : Run R)
      → length wave ≤ suc width
      → s.total_credits ≤ limit
      → (run_wave net o wave s).total_credits ≤ limit * suc width
  unfolding run_wave
  run_wave-total wave s few below =
      let total = s.total_credits in
      let a = affordable-CanPay limit total o.matches wave in
      let ids = (affordable_ids (some limit) total o.matches wave).0 in
      let p =
        prepare-Cheap net limit total (load o.subtasks []) (team_agents o.team []) o.matches ids
          fair a.0 in
      let pts = (prepare net (load o.subtasks []) (team_agents o.team []) o.matches ids).0 in
      let ss = execute_all net s.results pts in
      let before = record s {
        errors =
            s.errors
            ++ ((affordable_ids (some limit) total o.matches wave).1
                ++ (prepare net (load o.subtasks []) (team_agents o.team []) o.matches ids).1);
      } in
      let c =
        collect-total net (limit - total) ss before
          (execute_all-cost net (limit - total) s.results pts p.0) in
      let n = length-execute_all net (limit - total) s.results pts in
      rw limited (
        omega (
          arith,
          c,
          round_bound limit total (length (settled_ids ss)) width below
              (omega (arith, n, p.1, a.1, few)),
        ))

  run_waves-total :
      (n : ℕ) (waves : List (List String)) (s : Run R)
      → All (λ wave. length wave ≤ suc width) waves
      → s.total_credits ≤ limit * suc width
      → (run_waves net o n waves s).total_credits ≤ limit * suc width
  unfolding run_waves
  run_waves-total n [] s few below = below
  run_waves-total n (wave ∷ waves) s few below = elim (Bool-cases (net.past_deadline n)) [
    | inl e ↦ rw e below
    | inr e ↦ elim (Bool-cases (is_exhausted o.max_budget s.total_credits)) [
      | inl b ↦ rw (e, b) below
      | inr b ↦
          let within : s.total_credits ≤ limit = ground (arith, limited, b) in
          rw (e, b)
            (run_waves-total (suc n) waves (run_wave net o wave s) few.1
              (run_wave-total wave s few.0 within))
    ]
  ]

-- With a budget, and alternatives that cost no more than the agents they stand in for, an
-- orchestration whose rounds have at most so many tasks spends at most that many times the budget,
-- whatever the other agents answer; so that rounds of one task keep the budget.
pub orchestrate-total :
    {R : Type 0} (net : Network R) (o : Options) (limit width : ℕ)
    → o.max_budget ≡ some limit
    → HasFairAlternatives o.matches
    → All (λ wave. length wave ≤ suc width) (compute_waves o.subtasks)
    → (orchestrate net o).total_credits ≤ limit * suc width
unfolding orchestrate
orchestrate-total net o limit width limited fair few =
    run_waves-total net o limit width limited fair 0 (compute_waves o.subtasks) (fresh_run net) few
      (omega arith)
