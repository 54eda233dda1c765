-- ===== src/Hub/World.antt =====
-- The state of the registry that jobs run on, with the requests that the relay waits for.
pub use agentbnb.Credit.Flow.{
  Fault, credit_fault, call_fault, Outcome, returned, raised, Flow, pure, continue_with, ◌>>=◌,
  ◌>>◌, catch_with, attempt, lift_credit,
}
use agentbnb.Prelude.{ℕ, String, List, Option, Dict, Bool}
use agentbnb.Credit.Db.{Db, Action, Result}
use agentbnb.Relay.Price.{CardRow}
use agentbnb.Hub.Jobs.{Job}

-- `SkillRoute`: of the configuration of an API the hub reads the price only.
pub data SkillRoute : Type 0 where
  direct_api : String → ℕ → SkillRoute
  relay_route queue_route : String → String → SkillRoute

pub record HubAgent : Type 0 where
  pub agent_id : String
  pub skill_routes : List SkillRoute
  pub is_paused : Bool

-- The stages of a pending request; one that has none counts as held.
pub data Lifecycle : Type 0 where
  held started progressing abandoned : Lifecycle

-- A pending request of the relay that was dispatched for a job. Its timers are left out.
pub record PendingJob : Type 0 where
  pub origin_owner : String
  pub escrow_id : Option String
  pub target_owner : String
  pub job_id : String
  pub lifecycle : Lifecycle

-- What is sent to agents: a job, with the text of its parameters, or the response to one.
pub data Message : Type 0 where
  incoming_request : String → String → String → String → String → Message
  response : String → Option String → Option String → Message
  relay_started : String → Option String → Message
  relay_progress : String → Option String → Option String → Message

pub record World : Type 0 where
  pub credit_db : Db
  pub jobs : List Job
  pub agents : List HubAgent
  pub cards : List CardRow
  pub connections : List String
  pub pending_requests : Dict PendingJob
  pub sent : List (String × Message)

abbrev pub lift_result : {A : Type 0} → World → Result A × Db → Outcome A × World
lift_result w = lift_credit (λ db. record w { credit_db = db })

abbrev pub on_credit : {A : Type 0} → Action A → Flow World A
on_credit m w = lift_result w (m w.credit_db)

abbrev pub on_jobs : (List Job → List Job) → World → World
on_jobs f w = record w { jobs = f w.jobs }
