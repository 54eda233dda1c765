-- ===== src/Hub/Bridge/Dispatched.antt =====
-- An agent that comes online gets the jobs that wait for it (`onAgentOnline` of
-- src/hub-agent/relay-bridge.ts).
use agentbnb.Prelude.{
  ℕ, ◌≤◌, ◌≡◌, refl, ap, ◌∙◌, Bool, true, ◌&&◌, not, String, List, [], ◌∷◌, ◌++◌, none, map, arith,
  ltb, str_eq_iff, contains,
}
use agentbnb.Credit.Table.{count, select_all, update_where, select_first-update_where_other}
use agentbnb.Credit.Order.{order_by, count-order_by}
use agentbnb.Hub.Jobs.{
  Job, dispatched, job_at, get_job, with_status, waits_for, get_jobs_by_relay_owner,
  update_job_status,
}
use agentbnb.Hub.World.{World, Message}
use agentbnb.Hub.Bridge.{message_of, dispatch_job, dispatch_all, on_agent_online}

-- The statuses that a dispatch of these jobs sets.
unfoldable marked : ℕ → List Job → List Job → List Job
unfolding update_job_status
marked now [] rows = rows
marked now (j ∷ js) rows = marked now js (update_job_status j.id dispatched none now rows)

-- The row waits for the owner and is none of these jobs.
abbrev left_out : String → List Job → Job → Bool
left_out owner js r = waits_for owner r && not (ltb 0 (count (job_at r.id) js))

count-update_job_status :
    (owner : String) (j : Job) (js : List Job) (now : ℕ) (rows : List Job)
    → count (left_out owner js) (update_job_status j.id dispatched none now rows)
      ≡ count (left_out owner (j ∷ js)) rows
unfolding count update_job_status update_where
count-update_job_status owner j js now [] = refl
count-update_job_status owner j js now (r ∷ rs) =
    ground
      (arith, count-update_job_status owner j js now rs, str_eq_iff r.id j.id, str_eq_iff j.id r.id)

none_left_out :
    (owner : String) (rows : List Job)
    → count (waits_for owner) rows ≡ count (left_out owner []) rows
unfolding count
none_left_out owner [] = refl
none_left_out owner (r ∷ rs) = ground (arith, none_left_out owner rs)

count-marked :
    (owner : String) (now : ℕ) (js rows : List Job)
    → count (waits_for owner) (marked now js rows) ≡ count (left_out owner js) rows
unfolding marked
count-marked owner now [] rows = none_left_out owner rows
count-marked owner now (j ∷ js) rows =
    count-marked owner now js (update_job_status j.id dispatched none now rows)
    ∙ count-update_job_status owner j js now rows

-- Every row that waits is among the jobs that are found.
all_called :
    (owner : String) (js rows : List Job)
    → ((id : String) → count (λ r. job_at id r && waits_for owner r) rows ≤ count (job_at id) js)
    → count (left_out owner js) rows ≡ 0
unfolding count
all_called owner js [] h = refl
all_called owner js (r ∷ rs) h =
    ground (arith, h r.id, str_eq_iff r.id r.id, all_called owner js rs λ id. ground (arith, h id))

count-select_all :
    (p q : Job → Bool) (rows : List Job)
    → count p (select_all q rows) ≡ count (λ r. p r && q r) rows
unfolding count select_all
count-select_all p q [] = refl
count-select_all p q (r ∷ rs) = ground (arith, count-select_all p q rs)

select_all-none : (p : Job → Bool) (rows : List Job) → count p rows ≡ 0 → select_all p rows ≡ []
unfolding count select_all
select_all-none p [] h = refl
select_all-none p (r ∷ rs) h = ground (arith, select_all-none p rs)

none_waits :
    (owner : String) (now : ℕ) (rows : List Job)
    → get_jobs_by_relay_owner owner (marked now (get_jobs_by_relay_owner owner rows) rows) ≡ []
unfolding get_jobs_by_relay_owner order_by
none_waits owner now rows =
    let js = get_jobs_by_relay_owner owner rows in
    ap (order_by (λ a b. ltb a.created_at b.created_at)) (
      select_all-none (waits_for owner) (marked now js rows) (
        count-marked owner now js rows
        ∙ all_called owner js rows λ id. omega (
          arith,
          count-order_by (λ a b. ltb a.created_at b.created_at) (job_at id)
              (select_all (waits_for owner) rows),
          count-select_all (job_at id) (waits_for owner) rows,
        )))

-- A job that is not among the marked ones is found as it was.
get_job-marked :
    (id : String) (now : ℕ) (js rows : List Job)
    → count (job_at id) js ≡ 0
    → get_job id (marked now js rows) ≡ get_job id rows
unfolding get_job marked update_job_status count
get_job-marked id now [] rows h = refl
get_job-marked id now (j ∷ js) rows h =
    get_job-marked id now js _ (ground arith)
    ∙ select_first-update_where_other (job_at j.id) (job_at id) (with_status dispatched none now)
        rows λ r e. ground (arith, str_eq_iff r.id j.id, str_eq_iff r.id id, str_eq_iff j.id id)

append_assoc :
    (xs : List (String × Message)) (x : String × Message) (ys : List (String × Message))
    → (xs ++ x ∷ []) ++ ys ≡ xs ++ x ∷ ys
append_assoc [] x ys = refl
append_assoc (y ∷ xs) x ys = ap (λ l. y ∷ l) (append_assoc xs x ys)

append_nil : (xs : List (String × Message)) → xs ≡ xs ++ []
append_nil [] = refl
append_nil (x ∷ xs) = ap (λ l. x ∷ l) (append_nil xs)

module _ (draw : Job → String) (owner : String) (now : ℕ) where
  -- What the dispatch of the jobs leaves.
  record Sends (js : List Job) (before after : World) : Type 0 where
    jobs : after.jobs ≡ marked now js before.jobs
    sent : after.sent ≡ before.sent ++ map (λ j. (owner, message_of draw before.agents j)) js
    same_credits : after.credit_db ≡ before.credit_db

  dispatch_all-Sends : (js : List Job) (w : World) → Sends js w (dispatch_all draw owner now js w)
  unfolding dispatch_all dispatch_job marked
  dispatch_all-Sends [] w = record { jobs = refl; sent = append_nil w.sent; same_credits = refl }
  dispatch_all-Sends (j ∷ js) w =
      let rest = dispatch_all-Sends js (dispatch_job draw owner now j w) in
      record {
        jobs = rest.jobs;
        sent = rest.sent ∙ append_assoc w.sent (owner, message_of draw w.agents j) _;
        same_credits = rest.same_credits;
      }

  -- When a connected agent comes online, the jobs that wait for it are sent to it in the order of the query, and
  -- none waits for it any more; the other jobs and the credits are as they were.
  pub on_agent_online_dispatches :
      (w : World)
      → contains owner w.connections ≡ true
      → (let js = get_jobs_by_relay_owner owner w.jobs in
          let after = on_agent_online draw owner now w in
          (get_jobs_by_relay_owner owner after.jobs ≡ [])
          × (after.sent ≡ w.sent ++ map (λ j. (owner, message_of draw w.agents j)) js)
          × (after.credit_db ≡ w.credit_db)
          × ((id : String) → count (job_at id) js ≡ 0 → get_job id after.jobs ≡ get_job id w.jobs))
  unfolding on_agent_online
  on_agent_online_dispatches w connected =
      let js = get_jobs_by_relay_owner owner w.jobs in
      let sends = dispatch_all-Sends js w in
      rw (connected, on_agent_online)
        (
          ap (get_jobs_by_relay_owner owner) sends.jobs ∙ none_waits owner now w.jobs,
          sends.sent,
          sends.same_credits,
          λ id h. ap (get_job id) sends.jobs ∙ get_job-marked id now js w.jobs h,
        )
