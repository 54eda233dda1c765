-- ===== src/Conductor/Tests.antt =====
-- Runs of src/conductor: a budget of two matches, and a plan of two tasks.
use agentbnb.Prelude.{
  ltb, ◌==◌, min, max, ◌-◌, ◌*◌, contains, put, delete, ℕ, ◌<◌, ◌↔◌, ap, sym, String, none, some,
  false, pos, occurrences, IsDistinct, no_repeats, no_repeats→IsDistinct, keys, str_eq, str_eq_iff,
  ◌≢◌, if◌then◌else◌, arith, ◌≤◌, ◌≡◌, refl, List, [], ◌∷◌,
}
use agentbnb.Autonomy.Scores.{Double, Card}
use agentbnb.Conductor.Teams.{cost_optimized, form_team}
use agentbnb.Conductor.Teams.Others.{IsTeamFor, form_team-IsTeamFor}
use agentbnb.Conductor.Json.{no_field}
use agentbnb.Conductor.Kahn.{Edge, kahn, find_cycle}
use agentbnb.Conductor.Kahn.Counts.{Known}
use agentbnb.Conductor.Kahn.Loop.{InOrder}
use agentbnb.Conductor.Kahn.Order.{IsRanked, kahn-sorts, find_cycle_iff}
use agentbnb.Conductor.Validator.{SubTask, validate_and_normalize_subtasks}
use agentbnb.Conductor.Validator.Plan.{IsPlan, ids_of, to_json}
use agentbnb.Conductor.Validator.Checked.{Outcome, validate-IsPlan}
use agentbnb.Conductor.Validator.Roundtrip.{validate-to_json}
use agentbnb.Conductor.Waves.{compute_waves, waves_from, next_wave, deps_resolved, load, delete_all}
use agentbnb.Conductor.Waves.Layers.{IsLayered}
use agentbnb.Conductor.Waves.Progress.{concat}
use agentbnb.Conductor.Waves.Schedule.{compute_waves-validate}
use agentbnb.Conductor.Orchestrator.{
  team_agents, Network, Options, orchestrate, run_waves, run_wave, collect, execute_all, prepare,
  affordable_ids,
}
use agentbnb.Conductor.Orchestrator.Spending.{orchestrate-total}
use agentbnb.Conductor.Orchestrator.Rounds.{orchestrate-results}
use agentbnb.Credit.Db.{Db, open_credit_db}
use agentbnb.Conductor.Budget.{MatchResult}

abbrev rich : Db
rich = record open_credit_db {
  balances = (record { owner = "ann"; balance = 60; updated_at = 1 }) ∷ [];
}

abbrev matches : List MatchResult
matches =
    (record { subtask_id = "a"; credits = 10 }) ∷ (record { subtask_id = "b"; credits = 7 }) ∷ []

-- Two tasks, the later one first.
abbrev plan : List SubTask
plan =
    (record {
      id = "b";
      description = "read";
      required_capability = "tts";
      params = no_field;
      depends_on = "a" ∷ [];
      estimated_credits = pos 3;
    })
    ∷ (record {
      id = "a";
      description = "write";
      required_capability = "text";
      params = no_field;
      depends_on = [];
      estimated_credits = pos 0;
    })
    ∷ []

abbrev edges : List Edge
edges = ("a", "b") ∷ []

abbrev place : String → ℕ
place w = if str_eq w "b" then 1 else 0

edges-Known : Known ("b" ∷ "a" ∷ []) edges
unfolding occurrences
edges-Known = ((omega arith, omega arith), tt)

kahn-sorts_example :
    ((kahn ("b" ∷ "a" ∷ []) edges).queue ≡ [])
    × IsDistinct (kahn ("b" ∷ "a" ∷ []) edges).done
    × InOrder edges (kahn ("b" ∷ "a" ∷ []) edges).done
unfolding no_repeats
kahn-sorts_example =
    kahn-sorts ("b" ∷ "a" ∷ []) edges edges-Known (no_repeats→IsDistinct ("b" ∷ "a" ∷ []) refl)

find_cycle_iff_example :
    (find_cycle ("b" ∷ "a" ∷ []) edges ≡ none) ↔ ((r : String → ℕ) × IsRanked r edges)
unfolding no_repeats
find_cycle_iff_example =
    find_cycle_iff ("b" ∷ "a" ∷ []) edges edges-Known (no_repeats→IsDistinct ("b" ∷ "a" ∷ []) refl)

validate-IsPlan_example : Outcome 5 (validate_and_normalize_subtasks (to_json plan) 5)
validate-IsPlan_example = validate-IsPlan (to_json plan) 5

not_blank : (s : String) → str_eq s "" ≡ false → s ≢ ""
not_blank s h p = ground (arith, h, p, str_eq_iff s "")

plan-IsPlan : IsPlan 5 plan
unfolding occurrences no_repeats
plan-IsPlan = record {
  tasks = (
    record {
      has_id = not_blank _ refl;
      has_description = not_blank _ refl;
      has_capability = not_blank _ refl;
      credits = 3;
      credits_whole = refl;
      credits_within = omega arith;
    },
    (
      record {
        has_id = not_blank _ refl;
        has_description = not_blank _ refl;
        has_capability = not_blank _ refl;
        credits = 0;
        credits_whole = refl;
        credits_within = omega arith;
      },
      tt,
    ),
  );
  distinct = no_repeats→IsDistinct (ids_of plan) refl;
  closed = ((omega arith, tt), (tt, tt));
  rank = place;
  acyclic = ((omega arith, tt), (tt, tt));
}

validate-to_json_example :
    validate_and_normalize_subtasks (to_json plan) 5 ≡ record { valid = plan; errors = [] }
validate-to_json_example = validate-to_json 5 plan plan-IsPlan

plan-accepted : (validate_and_normalize_subtasks (to_json plan) 5).errors ≡ []
plan-accepted = ap (λ r. r.errors) (validate-to_json 5 plan plan-IsPlan)

compute_waves-validate_example :
    (let tasks = (validate_and_normalize_subtasks (to_json plan) 5).valid in
      (occurrences "b" (concat (compute_waves tasks)) ≡ occurrences "b" (ids_of tasks))
      × (occurrences "b" (ids_of tasks) ≤ 1)
      × IsLayered tasks [] (compute_waves tasks))
compute_waves-validate_example = compute_waves-validate (to_json plan) 5 plan-accepted "b"

-- The agent `down` does not answer, and its alternative does.
abbrev network : Network ℕ
network = record {
  resolve_agent_url = λ agent. record { url = agent; card_id = "card" };
  through_relay = λ e. false;
  request = λ e pt results. if str_eq e.url "down" then none else some 7;
  request_batch = λ url pts results. none;
  undefined_reply = 0;
  past_deadline = λ n. false;
}

abbrev options : Options
options = record {
  subtasks = plan;
  matches =
      (
        "b",
        record {
          selected_agent = "down";
          credits = 4;
          alternatives = (record { agent = "up"; credits = 6 }) ∷ [];
        },
      )
      ∷ ("a", record { selected_agent = "up"; credits = 2; alternatives = [] })
      ∷ [];
  max_budget = some 9;
  team = [];
}

orchestrate-results_example : 0 < occurrences "b" (keys (orchestrate network options).results)
unfolding occurrences orchestrate run_waves run_wave collect execute_all prepare affordable_ids
    compute_waves team_agents
orchestrate-results_example =
    orchestrate-results network (to_json plan) 5 options plan-accepted
      (sym (ap (λ r. r.valid) (validate-to_json 5 plan plan-IsPlan))) refl "b" (omega arith)

-- The alternative is as cheap as the agent.
abbrev frugal : Options
frugal = record options {
  matches =
      (
        "b",
        record {
          selected_agent = "down";
          credits = 4;
          alternatives = (record { agent = "up"; credits = 4 }) ∷ [];
        },
      )
      ∷ ("a", record { selected_agent = "up"; credits = 2; alternatives = [] })
      ∷ [];
}

orchestrate-total_example : (orchestrate network frugal).total_credits ≤ 9 * 1
unfolding compute_waves waves_from next_wave deps_resolved contains load put delete_all delete
orchestrate-total_example =
    orchestrate-total network frugal 9 0 refl ((omega arith, tt), (tt, tt))
      ((omega arith), ((omega arith), tt))

-- Whole numbers in the place of doubles.
abbrev whole : Double ℕ
whole = record {
  nought = 0;
  half = 0;
  one = 1;
  of_credits = λ n. n;
  less = ltb;
  same = λ a b. a == b;
  smaller = min;
  larger = max;
  minus = λ a b. a - b;
  times = λ a b. a * b;
  over = λ a b. a;
}

abbrev sold_by : String → Card ℕ
sold_by owner = record {
  id = "card";
  owner = owner;
  agent_id = none;
  skills = none;
  credits_per_call = 7;
  success_rate = none;
  idle_rate = none;
}

abbrev found : String → List (Card ℕ)
found capability = sold_by "boss" ∷ sold_by "bob" ∷ []

form_team-IsTeamFor_example :
    IsTeamFor whole "boss" found [] cost_optimized plan
      (form_team whole found "boss" [] cost_optimized plan)
form_team-IsTeamFor_example = form_team-IsTeamFor whole "boss" found [] cost_optimized plan
