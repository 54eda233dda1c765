-- ===== src/Hub/Jobs.antt =====
-- src/hub-agent/job-queue.ts: the table of the jobs. Parameters and results are the texts of their JSON.
use agentbnb.Prelude.{ℕ, Bool, true, false, ◌&&◌, ltb, String, List, Option, none, some, str_eq}
use agentbnb.Credit.Table.{select_first, select_all, update_where, insert}
use agentbnb.Credit.Order.{order_by}

pub data JobStatus : Type 0 where
  queued dispatched completed failed : JobStatus

pub record Job : Type 0 where
  pub id : String
  pub hub_agent_id : String
  pub skill_id : String
  pub requester_owner : String
  pub params : String
  pub status : JobStatus
  pub result : Option String
  pub escrow_id : Option String
  pub relay_owner : Option String
  pub created_at : ℕ
  pub updated_at : ℕ

pub record InsertJobInput : Type 0 where
  pub hub_agent_id : String
  pub skill_id : String
  pub requester_owner : String
  pub params : String
  pub escrow_id : Option String
  pub relay_owner : Option String

abbrev pub new_job : InsertJobInput → String → ℕ → Job
new_job input id now = record {
  id = id;
  hub_agent_id = input.hub_agent_id;
  skill_id = input.skill_id;
  requester_owner = input.requester_owner;
  params = input.params;
  status = queued;
  result = none;
  escrow_id = input.escrow_id;
  relay_owner = input.relay_owner;
  created_at = now;
  updated_at = now;
}

unfoldable pub insert_job : InsertJobInput → String → ℕ → List Job → Job × List Job
insert_job input id now rows = (new_job input id now, insert (new_job input id now) rows)

abbrev pub job_at : String → Job → Bool
job_at id r = str_eq r.id id

unfoldable pub get_job : String → List Job → Option Job
get_job id rows = select_first (job_at id) rows

abbrev pub same_status : JobStatus → JobStatus → Bool
same_status queued queued = true
same_status dispatched dispatched = true
same_status completed completed = true
same_status failed failed = true
same_status _ _ = false

abbrev has_status : Option JobStatus → Job → Bool
has_status none r = true
has_status (some s) r = same_status r.status s

unfoldable pub list_jobs : String → Option JobStatus → List Job → List Job
list_jobs hub_agent_id status rows =
    order_by (λ a b. ltb b.created_at a.created_at)
      (select_all (λ r. str_eq r.hub_agent_id hub_agent_id && has_status status r) rows)

-- Without a result, the one that is stored stays.
abbrev pub with_status : JobStatus → Option String → ℕ → Job → Job
with_status status none now r = record r { status = status; updated_at = now }
with_status status (some result) now r = record r {
  status = status;
  result = some result;
  updated_at = now;
}

unfoldable pub update_job_status : String → JobStatus → Option String → ℕ → List Job → List Job
update_job_status id status result now rows =
    update_where (job_at id) (with_status status result now) rows

abbrev pub is_for : Option String → String → Bool
is_for none owner = false
is_for (some o) owner = str_eq o owner

abbrev pub waits_for : String → Job → Bool
waits_for relay_owner r = is_for r.relay_owner relay_owner && same_status r.status queued

unfoldable pub get_jobs_by_relay_owner : String → List Job → List Job
get_jobs_by_relay_owner relay_owner rows =
    order_by (λ a b. ltb a.created_at b.created_at) (select_all (waits_for relay_owner) rows)
