-- ===== src/Hub/Bridge.antt =====
-- src/hub-agent/relay-bridge.ts, with the branch for jobs of `handleRelayResponse` of
-- src/relay/websocket-relay.ts: queued jobs go to the agent that comes online, and its responses end
-- them. `draw` is the random id of the request for a job. A text of parameters that is not JSON
-- stands for no parameters.
pub mod Dispatched
pub mod Requests
pub mod Once
pub mod Paid
use agentbnb.Prelude.{
  ℕ, zero, suc, Bool, true, false, String, str_append, List, [], ◌∷◌, ◌++◌, Option, none, some,
  str_eq, Dict, get, put, delete, contains, if◌then◌else◌,
}
use agentbnb.Credit.Table.{select_first}
use agentbnb.Credit.Db.{Db, Action, Result}
use agentbnb.Relay.Credit.{settle_for_relay, release_for_relay}
use agentbnb.Hub.Jobs.{
  Job, JobStatus, dispatched, completed, failed, update_job_status, get_jobs_by_relay_owner,
}
use agentbnb.Hub.World.{
  World, HubAgent, held, PendingJob, Message, incoming_request, response, on_jobs,
}
use agentbnb.Hub.Executor.{get_hub_agent, card_id_of}

-- The card of the job's Hub agent.
abbrev card_of : Job → Option HubAgent → String
card_of job none = job.hub_agent_id
card_of job (some agent) = card_id_of agent.agent_id

abbrev pub pending_of : String → Job → PendingJob
pending_of owner job = record {
  origin_owner = job.requester_owner;
  escrow_id = job.escrow_id;
  target_owner = owner;
  job_id = job.id;
  lifecycle = held;
}

abbrev pub message_of : (Job → String) → List HubAgent → Job → Message
message_of draw agents job =
    incoming_request (draw job) job.requester_owner
      (card_of job (get_hub_agent job.hub_agent_id agents)) job.skill_id job.params

module _ (draw : Job → String) (owner : String) (now : ℕ) where
  -- The body of the loop.
  unfoldable pub dispatch_job : Job → World → World
  dispatch_job job w = record w {
    jobs = update_job_status job.id dispatched none now w.jobs;
    pending_requests = put (draw job) (pending_of owner job) w.pending_requests;
    sent = w.sent ++ (owner, message_of draw w.agents job) ∷ [];
  }

  unfoldable pub dispatch_all : List Job → World → World
  unfolding dispatch_job
  dispatch_all [] w = w
  dispatch_all (job ∷ rest) w = dispatch_all rest (dispatch_job job w)

  unfoldable pub on_agent_online : World → World
  unfolding dispatch_all
  on_agent_online w =
      if contains owner w.connections
      then dispatch_all (get_jobs_by_relay_owner owner w.jobs) w
      else w

-- `try { … } catch { log }` around a call into the credit system: its writes stay, its error is dropped.
abbrev pub ignoring_errors : Action (Unit {0}) → World → World
ignoring_errors m w = record w { credit_db = (m w.credit_db).1 }

abbrev pub release_of : Option String → ℕ → World → World
release_of none now w = w
release_of (some escrow_id) now w = ignoring_errors (release_for_relay (some escrow_id) now) w

abbrev pub settle_of : Option String → String → ℕ → World → World
settle_of none relay_owner now w = w
settle_of (some escrow_id) relay_owner now w =
    ignoring_errors (settle_for_relay escrow_id relay_owner now) w

-- The callback of the timer that was set for a job.
unfoldable pub dispatch_timeout : String → Job → ℕ → World → World
dispatch_timeout request_id job now w = elim (get request_id w.pending_requests) [
  | none ↦ w
  | some pending ↦ release_of job.escrow_id now (record w {
    pending_requests = delete request_id w.pending_requests;
    jobs = update_job_status job.id failed (some "{\"error\":\"dispatch timeout\"}") now w.jobs;
  })
]

-- The error and the result are the texts of their JSON.
unfoldable pub handle_job_relay_response :
    String → Option String → String → Option String → Option String → ℕ → World → World
handle_job_relay_response job_id escrow_id relay_owner result (some error) now w =
    release_of escrow_id now (on_jobs (update_job_status job_id failed (some error) now) w)
handle_job_relay_response job_id escrow_id relay_owner result none now w =
    settle_of escrow_id relay_owner now (on_jobs (update_job_status job_id completed result now) w)

abbrev pub result_unless : Option String → Option String → Option String
result_unless none result = result
result_unless (some error) result = none

-- The response is passed on to the requester, if connected.
abbrev pub forward : String → Message → World → World
forward origin m w =
    if contains origin w.connections then record w { sent = w.sent ++ (origin, m) ∷ [] } else w

unfoldable pub handle_relay_response : String → Option String → Option String → ℕ → World → World
unfolding handle_job_relay_response
handle_relay_response request_id result error now w = elim (get request_id w.pending_requests) [
  | none ↦ w
  | some pending ↦ forward pending.origin_owner (response request_id result error) (
      handle_job_relay_response pending.job_id pending.escrow_id pending.target_owner
        (result_unless error result) error now
        (record w { pending_requests = delete request_id w.pending_requests }))
]
