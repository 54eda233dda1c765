-- ===== src/Hub/Bridge/Paid.antt =====
-- The end of a dispatched job is the end of its escrow (src/hub-agent/relay-bridge.ts).
use agentbnb.Prelude.{ℕ, ◌≡◌, ◌≢◌, ◌⊎◌, false, str_eq, String, none, some}
use agentbnb.Credit.Types.{EscrowStatus, settled, released, lifecycle}
use agentbnb.Credit.Supply.{HasKeys, terms}
use agentbnb.Hub.Jobs.{Job, JobStatus, completed, failed, get_job}
use agentbnb.Hub.World.{World, PendingJob, Lifecycle}
use agentbnb.Hub.Bridge.{pending_of}
use agentbnb.Hub.Bridge.Once.{
  responded, timed_out, Closing, ended, disconnected, hard_timed_out, grace_timed_out,
}

-- What it means for the job and for its escrow: only a response or the timer of the dispatch changes
-- the job.
abbrev pub job_status_of : Job → Closing → JobStatus
job_status_of job (ended (responded result none)) = completed
job_status_of job (ended (responded result (some error))) = failed
job_status_of job (ended timed_out) = failed
job_status_of job (disconnected owner) = job.status
job_status_of job hard_timed_out = job.status
job_status_of job grace_timed_out = job.status

abbrev pub escrow_status_of : Closing → EscrowStatus
escrow_status_of (ended (responded result none)) = settled
escrow_status_of (ended (responded result (some error))) = released
escrow_status_of (ended timed_out) = released
escrow_status_of (disconnected owner) = released
escrow_status_of hard_timed_out = released
escrow_status_of grace_timed_out = released

-- The request ends: the target disconnects, or the requester does before the start, or a timer runs
-- out at its stage.
abbrev pub IsEnd : PendingJob → Closing → Type 0
IsEnd p (ended e) = Unit
IsEnd p (disconnected owner) =
    (p.target_owner ≡ owner)
    ⊎ ((str_eq p.target_owner owner ≡ false)
        × (p.origin_owner ≡ owner)
        × (p.lifecycle ≡ Lifecycle.held))
IsEnd p hard_timed_out = p.lifecycle ≢ Lifecycle.abandoned
IsEnd p grace_timed_out = p.lifecycle ≡ Lifecycle.abandoned

-- The pending request of a job at a stage.
abbrev pub request_at : String → Job → Lifecycle → PendingJob
request_at owner job stage = record (pending_of owner job) { lifecycle = stage }

-- The job with this id has the status, and the escrow is over for its whole amount.
pub record HasEnded (id e : String) (amount : ℕ) (s : JobStatus) (t : EscrowStatus) (w : World)
    : Type 0 where
  pub job : Job
  pub found : get_job id w.jobs ≡ some job
  pub job_status : job.status ≡ s
  pub keys : HasKeys w.credit_db
  pub escrow_status : terms e w.credit_db ≡ some (amount, lifecycle t)
