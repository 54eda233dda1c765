-- ===== src/Hub/Tests.antt =====
-- Runs of src/hub-agent: a job of "ann" for 12 credits that waits for "bob".
use agentbnb.Prelude.{
  ◌≡◌, ◌⊎◌, refl, false, [], ◌∷◌, ◌++◌, none, some, map, arith, occurrences, contains, String,
}
use agentbnb.Credit.Types.{held, lifecycle, from_balance, insufficient_credits}
use agentbnb.Credit.Table.{count, select_first}
use agentbnb.Credit.Db.{Db, EscrowRow, open_credit_db}
use agentbnb.Credit.Supply.{HasKeys, terms}
use agentbnb.Credit.Owner.Canonical.{all-IsCanonical}
use agentbnb.Hub.Jobs.{Job, queued, dispatched, job_at, get_job, get_jobs_by_relay_owner}
use agentbnb.Hub.World.{World, HubAgent, raised, credit_fault}
use agentbnb.Hub.Executor.{ApiReply, api_success, execute_direct_api}
use agentbnb.Hub.Executor.Closed.{IsClosed, execute_direct_api_closes}
use agentbnb.Hub.Bridge.{pending_of, message_of, on_agent_online}
use agentbnb.Hub.Bridge.Dispatched.{on_agent_online_dispatches}
use agentbnb.Hub.Bridge.Once.{
  responded, timed_out, end_job, ended, disconnected, run_closings, run_endings_once,
}

abbrev held_row : EscrowRow
held_row = record {
  id = "e";
  owner = "ann";
  amount = 12;
  card_id = "card";
  status = lifecycle held;
  created_at = 1;
  settled_at = none;
  funding_source = from_balance;
}

abbrev before : Db
before = record open_credit_db {
  balances = (record { owner = "ann"; balance = 60; updated_at = 1 }) ∷ [];
  escrows = held_row ∷ [];
}

before-HasKeys : HasKeys before
unfolding count
before-HasKeys = record {
  balances = λ o. ground arith;
  escrows = λ id. ground arith;
  vouchers = λ id. ground arith;
}

abbrev job : Job
job = record {
  id = "j";
  hub_agent_id = "hub";
  skill_id = "skill";
  requester_owner = "ann";
  params = "{}";
  status = dispatched;
  result = none;
  escrow_id = some "e";
  relay_owner = some "bob";
  created_at = 1;
  updated_at = 1;
}

abbrev hub : HubAgent
hub = record { agent_id = "hub"; skill_routes = []; is_paused = false }

abbrev waiting : World
waiting = record {
  credit_db = before;
  jobs = job ∷ [];
  agents = hub ∷ [];
  cards = [];
  connections = "bob" ∷ [];
  pending_requests = ("r", pending_of "bob" job) ∷ [];
  sent = [];
}

abbrev draw : Job → String
draw j = "r"

-- The job before its dispatch.
abbrev queued_job : Job
queued_job = record job { status = queued }

abbrev offline : World
offline = record waiting { jobs = queued_job ∷ []; pending_requests = [] }

on_agent_online_dispatches_example :
    (let js = get_jobs_by_relay_owner "bob" offline.jobs in
      let after = on_agent_online draw "bob" 2 offline in
      (get_jobs_by_relay_owner "bob" after.jobs ≡ [])
      × (after.sent ≡ [] ++ map (λ j. ("bob", message_of draw (hub ∷ []) j)) js)
      × (after.credit_db ≡ before)
      × ((id : String)
          → count (job_at id) js ≡ 0
          → get_job id after.jobs ≡ get_job id (queued_job ∷ [])))
unfolding contains
on_agent_online_dispatches_example = on_agent_online_dispatches draw "bob" 2 offline refl

run_endings_once_example :
    run_closings "r" job
      ((ended (responded (some "1") none), 3)
        ∷ (ended timed_out, 4)
        ∷ (disconnected "bob", 5)
        ∷ (ended (responded none (some "late")), 6)
        ∷ [])
      waiting
    ≡ end_job "r" job (responded (some "1") none) 3 waiting
unfolding occurrences
run_endings_once_example =
    run_endings_once "r" job (responded (some "1") none) 3
      ((ended timed_out, 4)
        ∷ (disconnected "bob", 5)
        ∷ (ended (responded none (some "late")), 6)
        ∷ [])
      waiting λ w. ground arith

abbrev api : String → String → ApiReply
api agent_id skill_id = api_success "done"

execute_direct_api_closes_example :
    (let q = execute_direct_api api "f" "k" 2 3 "skill" hub (some "ann") 7 waiting in
      IsClosed "f" 7 (api_success "done") q
      ⊎ ((q.0 ≡ raised (credit_fault insufficient_credits)) × (terms "f" q.1.credit_db ≡ none)))
unfolding select_first
execute_direct_api_closes_example =
    execute_direct_api_closes api "f" "k" 2 3 hub 7 "skill" "ann" waiting refl (omega arith)
      before-HasKeys (all-IsCanonical "hub") refl
