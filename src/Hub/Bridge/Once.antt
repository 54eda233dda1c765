-- ===== src/Hub/Bridge/Once.antt =====
-- A dispatched job ends once (src/hub-agent/relay-bridge.ts, src/relay/websocket-relay.ts).
use agentbnb.Prelude.{
  ℕ, ◌≤◌, ◌≡◌, refl, ap, ◌∙◌, inl, inr, String, List, [], ◌∷◌, Option, none, some, arith,
  str_eq_iff, Dict, get, delete, keys, occurrences, contains, IsDistinct, Bool-cases, Option-cases,
}
use agentbnb.Hub.Jobs.{Job}
use agentbnb.Hub.World.{World, Message, response}
use agentbnb.Hub.Bridge.Requests.{end_request_of, hard_timeout, grace_timeout}
use agentbnb.Hub.Bridge.{
  dispatch_timeout, handle_relay_response, handle_job_relay_response, release_of, settle_of,
  result_unless, forward,
}

-- What always ends the request for a job: the result and error of its agent, or the timer of the
-- dispatch.
pub data Ending : Type 0 where
  responded : Option String → Option String → Ending
  timed_out : Ending

unfoldable pub end_job : String → Job → Ending → ℕ → World → World
end_job request_id job (responded result error) now w =
    handle_relay_response request_id result error now w
end_job request_id job timed_out now w = dispatch_timeout request_id job now w

-- What can end it besides: an agent that disconnects, and the timers of the relay.
pub data Closing : Type 0 where
  ended : Ending → Closing
  disconnected : String → Closing
  hard_timed_out grace_timed_out : Closing

unfoldable pub close_request : String → Job → Closing → ℕ → World → World
unfolding end_job
close_request request_id job (ended e) now w = end_job request_id job e now w
close_request request_id job (disconnected owner) now w = end_request_of owner request_id now w
close_request request_id job hard_timed_out now w = hard_timeout request_id now w
close_request request_id job grace_timed_out now w = grace_timeout request_id now w

unfoldable pub run_closings : String → Job → List (Closing × ℕ) → World → World
unfolding close_request
run_closings request_id job [] w = w
run_closings request_id job ((c, now) ∷ rest) w =
    run_closings request_id job rest (close_request request_id job c now w)

get-delete_own :
    {V : Type 0} (k : String) (m : Dict V) → occurrences k (keys m) ≤ 1 → get k (delete k m) ≡ none
unfolding get delete occurrences
get-delete_own k [] h = refl
get-delete_own k ((j, v) ∷ m) h = ground (arith, get-delete_own k m, absent k m, str_eq_iff j k)
  where
    absent : {V : Type 0} (k : String) (m : Dict V) → occurrences k (keys m) ≡ 0 → get k m ≡ none
    absent k [] h = refl
    absent k ((j, v) ∷ m) h = ground (arith, absent k m)

release-pending :
    (e : Option String) (now : ℕ) (w : World)
    → (release_of e now w).pending_requests ≡ w.pending_requests
release-pending none now w = refl
release-pending (some id) now w = refl

settle-pending :
    (e : Option String) (o : String) (now : ℕ) (w : World)
    → (settle_of e o now w).pending_requests ≡ w.pending_requests
settle-pending none o now w = refl
settle-pending (some id) o now w = refl

forward-pending :
    (origin : String) (m : Message) (w : World)
    → (forward origin m w).pending_requests ≡ w.pending_requests
forward-pending origin m w = elim (Bool-cases (contains origin w.connections)) [
  | inl e ↦ rw e refl
  | inr e ↦ rw e refl
]

response-pending :
    (id : String) (escrow : Option String) (o : String) (result error : Option String) (now : ℕ)
    (w : World)
    → (handle_job_relay_response id escrow o result error now w).pending_requests
      ≡ w.pending_requests
unfolding handle_job_relay_response
response-pending id escrow o result none now w = settle-pending escrow o now _
response-pending id escrow o result (some e) now w = release-pending escrow now _

-- An ending of a request that is not pending changes nothing.
end_job_idle :
    (request_id : String) (job : Job) (e : Ending) (now : ℕ) (w : World)
    → get request_id w.pending_requests ≡ none
    → end_job request_id job e now w ≡ w
unfolding end_job handle_relay_response dispatch_timeout
end_job_idle request_id job (responded result error) now w h =
    rw (h, end_job, handle_relay_response) refl
end_job_idle request_id job timed_out now w h = rw (h, end_job, dispatch_timeout) refl

-- No ending leaves the request pending.
end_job_ends :
    (request_id : String) (job : Job) (e : Ending) (now : ℕ) (w : World)
    → IsDistinct (keys w.pending_requests)
    → get request_id (end_job request_id job e now w).pending_requests ≡ none
unfolding end_job handle_relay_response dispatch_timeout
end_job_ends request_id job (responded result error) now w distinct =
    elim (Option-cases (get request_id w.pending_requests)) [
      | inl h ↦ rw (h, handle_relay_response) h
      | inr (p, h) ↦
          rw (h, handle_relay_response)
            (ap (get request_id) (
                forward-pending p.origin_owner (response request_id result error) _
                ∙ response-pending p.job_id p.escrow_id p.target_owner (result_unless error result)
                    error now _)
              ∙ get-delete_own request_id w.pending_requests (distinct request_id))
    ]
end_job_ends request_id job timed_out now w distinct =
    elim (Option-cases (get request_id w.pending_requests)) [
      | inl h ↦ rw (h, dispatch_timeout) h
      | inr (p, h) ↦
          rw (h, dispatch_timeout)
            (ap (get request_id) (release-pending job.escrow_id now _)
              ∙ get-delete_own request_id w.pending_requests (distinct request_id))
    ]

idle_closings :
    (request_id : String) (job : Job) (closings : List (Closing × ℕ)) (w : World)
    → get request_id w.pending_requests ≡ none
    → run_closings request_id job closings w ≡ w
unfolding run_closings close_request end_request_of hard_timeout grace_timeout
idle_closings request_id job [] w h = refl
idle_closings request_id job ((c, now) ∷ rest) w h =
    let idle = close_request_idle c in
    ap (run_closings request_id job rest) idle ∙ idle_closings request_id job rest w h
  where
    close_request_idle : (c : Closing) → close_request request_id job c now w ≡ w
    close_request_idle (ended e) = end_job_idle request_id job e now w h
    close_request_idle (disconnected owner) = rw (h, close_request, end_request_of) refl
    close_request_idle hard_timed_out = rw (h, close_request, hard_timeout) refl
    close_request_idle grace_timed_out = rw (h, close_request, grace_timeout) refl

-- After the first response or dispatch timeout of a job's request, no further sequence of responses,
-- timeouts of any kind and disconnections changes anything through it: neither the credits, nor the
-- jobs, nor what is sent.
pub run_endings_once :
    (request_id : String) (job : Job) (e : Ending) (now : ℕ) (rest : List (Closing × ℕ)) (w : World)
    → IsDistinct (keys w.pending_requests)
    → run_closings request_id job ((ended e, now) ∷ rest) w ≡ end_job request_id job e now w
unfolding run_closings close_request
run_endings_once request_id job e now rest w distinct =
    idle_closings request_id job rest (end_job request_id job e now w)
      (end_job_ends request_id job e now w distinct)
