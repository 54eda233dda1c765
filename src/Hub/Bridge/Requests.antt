-- ===== src/Hub/Bridge/Requests.antt =====
-- The stages of a pending request and what else than a response ends it (src/relay/websocket-relay.ts),
-- for the requests of jobs. A timer is a callback that may run at any time.
use agentbnb.Prelude.{
  ℕ, not, String, List, [], ◌∷◌, Option, none, some, str_eq, get, put, delete, keys, if◌then◌else◌,
}
use agentbnb.Credit.Table.{select_all}
use agentbnb.Credit.Db.{Action}
use agentbnb.Credit.Escrow.{mark_escrow_started, mark_escrow_progressing, mark_escrow_abandoned}
use agentbnb.Hub.World.{
  World, PendingJob, Lifecycle, held, started, progressing, abandoned, response, relay_started,
  relay_progress,
}
use agentbnb.Hub.Bridge.{ignoring_errors, release_of, forward}

abbrev mark_of : (String → ℕ → Action (Unit {0})) → Option String → ℕ → World → World
mark_of mark none now w = w
mark_of mark (some escrow_id) now w = ignoring_errors (mark escrow_id now) w

abbrev at_stage : String → PendingJob → Lifecycle → World → World
at_stage request_id p stage w = record w {
  pending_requests = put request_id (record p { lifecycle = stage }) w.pending_requests;
}

unfoldable pub to_started : String → PendingJob → ℕ → World → World
to_started request_id p now w = elim p.lifecycle [
  | started ↦ w
  | progressing ↦ w
  | abandoned ↦ w
  | held ↦ mark_of mark_escrow_started p.escrow_id now (at_stage request_id p started w)
]

unfoldable pub to_progressing : String → PendingJob → ℕ → World → World
unfolding to_started
to_progressing request_id p now w = elim p.lifecycle [
  | abandoned ↦ w
  | held ↦
      mark_of mark_escrow_progressing p.escrow_id now
        (at_stage request_id p progressing (to_started request_id p now w))
  | started ↦ mark_of mark_escrow_progressing p.escrow_id now (at_stage request_id p progressing w)
  | progressing ↦
      mark_of mark_escrow_progressing p.escrow_id now (at_stage request_id p progressing w)
]

unfoldable pub to_abandoned : String → PendingJob → ℕ → World → World
to_abandoned request_id p now w = elim p.lifecycle [
  | abandoned ↦ w
  | held ↦ mark_of mark_escrow_abandoned p.escrow_id now (at_stage request_id p abandoned w)
  | started ↦ mark_of mark_escrow_abandoned p.escrow_id now (at_stage request_id p abandoned w)
  | progressing ↦ mark_of mark_escrow_abandoned p.escrow_id now (at_stage request_id p abandoned w)
]

unfoldable pub handle_relay_started : String → Option String → ℕ → World → World
unfolding to_started
handle_relay_started request_id message now w = elim (get request_id w.pending_requests) [
  | none ↦ w
  | some p ↦
      forward p.origin_owner (relay_started request_id message) (to_started request_id p now w)
]

unfoldable pub handle_relay_progress : String → Option String → Option String → ℕ → World → World
unfolding to_progressing
handle_relay_progress request_id progress message now w = elim (get request_id w.pending_requests) [
  | none ↦ w
  | some p ↦
      forward p.origin_owner (relay_progress request_id progress message)
        (to_progressing request_id p now w)
]

-- The request is dropped, and its escrow released.
abbrev pub drop_request : String → PendingJob → ℕ → World → World
drop_request request_id p now w =
    release_of p.escrow_id now
      (record w { pending_requests = delete request_id w.pending_requests })

-- The texts of the errors that the requester is sent.
abbrev pub request_timeout : Option String
request_timeout = some "{\"code\":-32603,\"message\":\"Relay request timeout\"}"

abbrev pub provider_disconnected : Option String
provider_disconnected = some "{\"code\":-32603,\"message\":\"Provider disconnected\"}"

unfoldable pub hard_timeout : String → ℕ → World → World
hard_timeout request_id now w = elim (get request_id w.pending_requests) [
  | none ↦ w
  | some p ↦ elim p.lifecycle [
    | abandoned ↦ w
    | _ ↦
        forward p.origin_owner (response request_id none request_timeout)
          (drop_request request_id p now w)
  ]
]

unfoldable pub grace_timeout : String → ℕ → World → World
grace_timeout request_id now w = elim (get request_id w.pending_requests) [
  | none ↦ w
  | some p ↦ elim p.lifecycle [ abandoned ↦ drop_request request_id p now w | _ ↦ w ]
]

abbrev pub requester_left : String → PendingJob → ℕ → World → World
requester_left request_id p now w = elim p.lifecycle [
  | held ↦ drop_request request_id p now w
  | _ ↦ to_abandoned request_id p now w
]

-- The body of the loop over the pending requests.
unfoldable pub end_request_of : String → String → ℕ → World → World
unfolding to_abandoned
end_request_of owner request_id now w = elim (get request_id w.pending_requests) [
  | none ↦ w
  | some p ↦
      if str_eq p.target_owner owner
      then forward p.origin_owner (response request_id none provider_disconnected)
          (drop_request request_id p now w)
      else if str_eq p.origin_owner owner
      then requester_left request_id p now w
      else w
]

unfoldable pub end_requests_of : String → List String → ℕ → World → World
unfolding end_request_of
end_requests_of owner [] now w = w
end_requests_of owner (request_id ∷ rest) now w =
    end_requests_of owner rest now (end_request_of owner request_id now w)

-- The part of the disconnection that concerns these requests.
unfoldable pub handle_disconnect : String → ℕ → World → World
unfolding end_requests_of
handle_disconnect owner now w =
    end_requests_of owner (keys w.pending_requests) now
      (record w { connections = select_all (λ c. not (str_eq c owner)) w.connections })
