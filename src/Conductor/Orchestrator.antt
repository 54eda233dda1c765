-- ===== src/Conductor/Orchestrator.antt =====
-- src/conductor/pipeline-orchestrator.ts, `orchestrate`: the rounds are executed one after the other.
-- The other agents, the clock and the substitution of parameters are a parameter, the `Network`. The
-- trace and the latency are not modelled.
mod Settled
pub mod Rounds
mod Costs
pub mod Spending
use agentbnb.Prelude.{
  ℕ, suc, ◌+◌, leb, ltb, Bool, true, false, ◌&&◌, String, Option, none, some, List, [], ◌∷◌, ◌++◌,
  map, Dict, get, put, if◌then◌else◌,
}
use agentbnb.Conductor.Validator.{SubTask, is_empty}
use agentbnb.Conductor.Waves.{compute_waves, load}

pub record Alternative : Type 0 where
  pub agent : String
  pub credits : ℕ

-- What `orchestrate` reads of a `MatchResult`.
pub record AgentMatch : Type 0 where
  pub selected_agent : String
  pub credits : ℕ
  pub alternatives : List Alternative

pub record Endpoint : Type 0 where
  pub url : String
  pub card_id : String

-- The task is that of the map of sub-tasks; the rounds only hold its keys.
pub record PreparedTask : Type 0 where
  pub task_id : String
  pub subtask : Option SubTask
  pub agent_match : AgentMatch
  pub primary : Endpoint

-- What the orchestration is not the code of: where an agent is reached, and whether through the
-- relay; what it answers to a task, with the results so far; what a gateway answers to a batch, with
-- an entry of none for an error; and whether the deadline has passed before a round. No answer is an
-- error thrown. `undefined_reply` is the reply of a batch that leaves a task out.
pub record Network (R : Type 0) : Type 0 where
  pub resolve_agent_url : String → Endpoint
  pub through_relay : Endpoint → Bool
  pub request : Endpoint → PreparedTask → Dict R → Option R
  pub request_batch : String → List PreparedTask → Dict R → Option (Dict (Option R))
  pub undefined_reply : R
  pub past_deadline : ℕ → Bool

pub data RunError : Type 0 where
  timed_out budget_exceeded : RunError
  skipped no_match failed : String → RunError

pub data Settlement (R : Type 0) : Type 0 where
  fulfilled : String → R → ℕ → Settlement R
  rejected : String → Settlement R

pub record Run (R : Type 0) : Type 0 where
  pub results : Dict R
  pub errors : List RunError
  pub total_credits : ℕ

pub record Options : Type 0 where
  pub subtasks : List SubTask
  pub matches : Dict AgentMatch
  pub max_budget : Option ℕ
  pub team : List (String × String)

abbrev pub is_over : Option ℕ → ℕ → Option AgentMatch → Bool
is_over none total m = false
is_over (some limit) total none = false
is_over (some limit) total (some m) = ltb limit (total + m.credits)

abbrev pub is_exhausted : Option ℕ → ℕ → Bool
is_exhausted none total = false
is_exhausted (some limit) total = leb limit total

-- The tasks of a round that the budget still allows, and the errors of the others.
unfoldable pub affordable_ids :
    Option ℕ → ℕ → Dict AgentMatch → List String → List String × List RunError
unfolding get
affordable_ids limit total matches [] = ([], [])
affordable_ids limit total matches (id ∷ ids) =
    let (rest, errs) = affordable_ids limit total matches ids in
    if is_over limit total (get id matches) then (rest, skipped id ∷ errs) else (id ∷ rest, errs)

-- The map from a sub-task to the agent that the team gives it.
unfoldable pub team_agents : List (String × String) → Dict String → Dict String
unfolding put
team_agents [] m = m
team_agents ((id, agent) ∷ rest) m = team_agents rest (put id agent m)

abbrev pub agent_for : Option String → AgentMatch → String
agent_for none m = m.selected_agent
agent_for (some agent) m = agent

abbrev pub or_no_tasks : Option (List PreparedTask) → List PreparedTask
or_no_tasks none = []
or_no_tasks (some pts) = pts

module _ {R : Type 0} (net : Network R) where
  unfoldable pub prepare :
      Dict SubTask → Dict String → Dict AgentMatch → List String → List PreparedTask × List RunError
  unfolding get
  prepare tasks team matches [] = ([], [])
  prepare tasks team matches (id ∷ ids) =
      let (rest, errs) = prepare tasks team matches ids in
      elim (get id matches) [
        | none ↦ (rest, no_match id ∷ errs)
        | some m ↦ (
          record {
            task_id = id;
            subtask = get id tasks;
            agent_match = m;
            primary = net.resolve_agent_url (agent_for (get id team) m);
          }
              ∷ rest,
          errs,
        )
      ]

  -- The first alternative, when the selected agent fails.
  unfoldable pub try_alternative : PreparedTask → Dict R → List Alternative → Settlement R
  try_alternative pt results [] = rejected pt.task_id
  try_alternative pt results (alt ∷ alts) =
      elim (net.request (net.resolve_agent_url alt.agent) pt results) [
        | none ↦ rejected pt.task_id
        | some r ↦ fulfilled pt.task_id r alt.credits
      ]

  unfoldable pub execute_single_task : Dict R → PreparedTask → Settlement R
  unfolding try_alternative
  execute_single_task results pt = elim (net.request pt.primary pt results) [
    | none ↦ try_alternative pt results pt.agent_match.alternatives
    | some r ↦ fulfilled pt.task_id r pt.agent_match.credits
  ]

  -- The entry of a batch's reply for one of its tasks.
  unfoldable pub settle_reply : PreparedTask → Option (Option R) → Settlement R
  settle_reply pt none = fulfilled pt.task_id net.undefined_reply pt.agent_match.credits
  settle_reply pt (some none) = rejected pt.task_id
  settle_reply pt (some (some r)) = fulfilled pt.task_id r pt.agent_match.credits

  unfoldable pub batch_reply : Dict (Option R) → PreparedTask → Settlement R
  unfolding get settle_reply
  batch_reply replies pt = settle_reply pt (get pt.task_id replies)

  -- The tasks at one gateway: a batch for two or more, one by one when the batch fails.
  unfoldable pub execute_group : Dict R → String → List PreparedTask → List (Settlement R)
  unfolding execute_single_task batch_reply
  execute_group results url [] = []
  execute_group results url (pt ∷ []) = execute_single_task results pt ∷ []
  execute_group results url (pt ∷ qt ∷ pts) =
      let group = pt ∷ qt ∷ pts in
      elim (net.request_batch url group results) [
        | none ↦ map (execute_single_task results) group
        | some replies ↦ map (batch_reply replies) group
      ]

  -- The tasks by gateway, and those that go through the relay.
  unfoldable pub group_tasks :
      List PreparedTask
      → Dict (List PreparedTask)
      → List PreparedTask
      → Dict (List PreparedTask) × List PreparedTask
  unfolding get put
  group_tasks [] groups relay = (groups, relay)
  group_tasks (pt ∷ pts) groups relay =
      if net.through_relay pt.primary
      then group_tasks pts groups (relay ++ pt ∷ [])
      else group_tasks pts
          (put pt.primary.url (or_no_tasks (get pt.primary.url groups) ++ pt ∷ []) groups) relay

  unfoldable pub execute_groups : Dict R → Dict (List PreparedTask) → List (Settlement R)
  unfolding execute_group
  execute_groups results [] = []
  execute_groups results ((url, group) ∷ groups) =
      execute_group results url group ++ execute_groups results groups

  unfoldable pub execute_all : Dict R → List PreparedTask → List (Settlement R)
  unfolding group_tasks execute_groups execute_single_task
  execute_all results pts =
      let (groups, relay) = group_tasks pts [] [] in
      execute_groups results groups ++ map (execute_single_task results) relay

  unfoldable pub collect : List (Settlement R) → Run R → Run R
  unfolding put
  collect [] s = s
  collect (fulfilled id r c ∷ rest) s =
      collect rest (record s { results = put id r s.results; total_credits = s.total_credits + c })
  collect (rejected id ∷ rest) s = collect rest (record s { errors = s.errors ++ failed id ∷ [] })

  unfoldable pub run_wave : Options → List String → Run R → Run R
  run_wave o wave s =
      let (ids, skips) = affordable_ids o.max_budget s.total_credits o.matches wave in
      let (pts, misses) = prepare (load o.subtasks []) (team_agents o.team []) o.matches ids in
      collect (execute_all s.results pts) (record s { errors = s.errors ++ (skips ++ misses) })

  unfoldable pub run_waves : Options → ℕ → List (List String) → Run R → Run R
  run_waves o n [] s = s
  run_waves o n (wave ∷ waves) s =
      let rest = run_waves o (suc n) waves (run_wave o wave s) in
      if net.past_deadline n
      then record s { errors = s.errors ++ timed_out ∷ [] }
      else if is_exhausted o.max_budget s.total_credits
      then record s { errors = s.errors ++ budget_exceeded ∷ [] }
      else rest

  abbrev pub fresh_run : Run R
  fresh_run = record { results = []; errors = []; total_credits = 0 }

  unfoldable pub orchestrate : Options → Run R
  orchestrate o = run_waves o 0 (compute_waves o.subtasks) fresh_run

  -- The field of the result.
  abbrev pub success : Run R → Bool
  success s = is_empty s.errors
