-- ===== src/Session/Manager.antt =====
-- src/session/session-manager.ts: opening, messages and the end of sessions. A session that the code
-- mutates is stored again under its id. Events for the registry and the content of errors are left
-- out; a timer is the id of its session, and its callback can run at any time.
pub mod Closed
pub mod Accounts
pub mod Ending
mod Charging
mod Kept
pub mod Opening
pub mod Payment
use agentbnb.Prelude.{
  ℕ, ◌+◌, Bool, true, false, not, ◌&&◌, String, Option, none, some, List, [], ◌∷◌, ◌++◌, length,
  Dict, get, put, delete, contains, remove, ltb, leb, leb_ℤ, ℤ, pos, minus, if◌then◌else◌,
}
use agentbnb.Session.Types.{
  Session, SessionStatus, opened, active, closing, settled, closed, SessionPricingModel,
  per_message, per_minute, per_session, SessionEndReason, timeout, budget_exhausted, error, Sender,
  requester, provider, SessionMessage, SessionConfig, OpenMessage, Tracking, Notice,
  max_concurrent_sessions, session_not_found, session_not_active, session_ack, session_message,
  session_settled, too_many_sessions, World, Task, is_live, accepts_messages, modify, pure, throw,
  ◌>>=◌, ◌>>◌,
}
use agentbnb.Session.Escrow.{hold_budget, deduct, remaining_of, settle, refund}

abbrev pub Step : Type 0
Step = Task (Unit {0})

abbrev pub send_to_agent : String → Notice → Step
send_to_agent key n = modify λ w. record w { outbox = w.outbox ++ (key, n) ∷ [] }

unfoldable pub store : Session → Step
store s = modify λ w. record w { sessions = put s.id s w.sessions }

abbrev pub include : String → List String → List String
include x xs = if contains x xs then xs else xs ++ x ∷ []

abbrev pub or_new_set : Option (List String) → List String
or_new_set none = []
or_new_set (some ids) = ids

unfoldable pub track_agent_session : String → String → Step
track_agent_session key id = modify λ w. record w {
  agent_sessions = put key (include id (or_new_set (get key w.agent_sessions))) w.agent_sessions;
}

abbrev pub put_or_delete : String → List String → Dict (List String) → Dict (List String)
put_or_delete key [] m = delete key m
put_or_delete key (id ∷ ids) m = put key (id ∷ ids) m

abbrev pub untracked :
    String → String → Option (List String) → Dict (List String) → Dict (List String)
untracked key id none m = m
untracked key id (some ids) m = put_or_delete key (remove id ids) m

unfoldable pub untrack_agent_session : String → String → Step
untrack_agent_session key id =
    modify λ w. record w {
      agent_sessions = untracked key id (get key w.agent_sessions) w.agent_sessions;
    }

unfoldable pub reset_idle_timer : String → Step
reset_idle_timer id = modify λ w. record w { idle_timers = include id w.idle_timers }

unfoldable pub start_duration_timer : String → Step
start_duration_timer id = modify λ w. record w { duration_timers = include id w.duration_timers }

unfoldable pub clear_timers : String → Step
clear_timers id = modify λ w. record w {
  idle_timers = remove id w.idle_timers;
  duration_timers = remove id w.duration_timers;
}

-- Settling pays what was spent; without any cost the budget is released.
unfoldable pub settle_credits : Session → ℕ → Step
unfolding settle refund
settle_credits s now =
    if ltb 0 s.spent then settle s.escrow_id s.provider_id now else refund s.escrow_id now

abbrev pub ending : Session → SessionEndReason → Session
ending s reason = record s { status = closing; end_reason = some reason }

-- What follows when the credits are settled.
unfoldable pub finish : Session → Step
unfolding store untrack_agent_session
finish s =
    store (record s { status = settled })
    >> send_to_agent s.requester_id
        (session_settled s.id s.spent (length s.messages) (minus s.budget s.spent))
    >> send_to_agent s.provider_id
        (session_settled s.id s.spent (length s.messages) (minus s.budget s.spent))
    >> store (record s { status = closed })
    >> untrack_agent_session s.requester_id s.id
    >> untrack_agent_session s.provider_id s.id

unfoldable pub end_session_internal : Session → SessionEndReason → ℕ → Step
unfolding store clear_timers settle_credits finish
end_session_internal s reason now =
    store (ending s reason) >> clear_timers s.id >> settle_credits s now >> finish (ending s reason)

abbrev pub is_per_session : SessionPricingModel → Bool
is_per_session per_message = false
is_per_session per_minute = false
is_per_session per_session = true

abbrev pub is_per_message : SessionPricingModel → Bool
is_per_message per_message = true
is_per_message per_minute = false
is_per_message per_session = false

abbrev pub is_provider : Sender → Bool
is_provider requester = false
is_provider provider = true

abbrev pub is_full : SessionConfig → Option (List String) → Bool
is_full config none = false
is_full config (some ids) = leb config.max_concurrent_sessions_per_agent (length ids)

abbrev pub new_session : OpenMessage → String → Session
new_session msg escrow_id = record {
  id = msg.session_id;
  requester_id = msg.requester_id;
  provider_id = msg.provider_id;
  card_id = msg.card_id;
  status = opened;
  escrow_id = escrow_id;
  budget = msg.budget;
  spent = 0;
  pricing_model = msg.pricing_model;
  messages = [];
  end_reason = none;
}

abbrev pub with_message : Session → Sender → String → Session
with_message s sender content = record s {
  messages = s.messages ++ record { sender = sender; content = content } ∷ [];
}

-- The flat rate is charged when the session opens.
unfoldable pub charge_flat : SessionConfig → Session → Step
unfolding deduct store
charge_flat config s =
    if is_per_session s.pricing_model
    then deduct s.escrow_id config.per_session_flat_rate
      >> store (record s { spent = config.per_session_flat_rate })
    else pure tt

-- The session that was just held an escrow for.
unfoldable pub begin_session : SessionConfig → OpenMessage → String → Session → Step
unfolding store track_agent_session charge_flat reset_idle_timer start_duration_timer
begin_session config msg key s =
    let s1 = record (with_message s requester msg.initial_message) { status = active } in
    store s
    >> track_agent_session key s.id
    >> track_agent_session msg.provider_id s.id
    >> send_to_agent key (session_ack s.id s.escrow_id)
    >> store s1
    >> send_to_agent msg.provider_id (session_message s.id requester msg.initial_message)
    >> charge_flat config s1
    >> reset_idle_timer s.id
    >> start_duration_timer s.id

unfoldable pub open_session : SessionConfig → OpenMessage → String → String → ℕ → Step
unfolding hold_budget begin_session
open_session config msg key escrow_id now w =
    (if is_full config (get key w.agent_sessions)
        then send_to_agent key (max_concurrent_sessions msg.session_id) >> throw too_many_sessions
        else (hold_budget msg.requester_id msg.budget msg.card_id escrow_id now >>= λ id.
            begin_session config msg key (new_session msg id)))
      w

abbrev pub counterparty : Session → Sender → String
counterparty s requester = s.provider_id
counterparty s provider = s.requester_id

unfoldable pub forward : Session → Sender → String → Step
unfolding store
forward s sender content =
    store (with_message s sender content)
    >> send_to_agent (counterparty s sender) (session_message s.id sender content)

-- A message of the provider costs the rate; the one that uses the budget up is the last.
unfoldable pub charge_message : SessionConfig → Session → Sender → String → ℕ → Step
unfolding deduct store forward end_session_internal reset_idle_timer
charge_message config s sender content now =
    let s1 = record s { spent = s.spent + config.per_message_base_rate } in
    deduct s.escrow_id config.per_message_base_rate >>= λ t.
    store s1
    >> forward s1 sender content
    >> (if leb_ℤ (remaining_of t) (pos 0)
        then end_session_internal (with_message s1 sender content) budget_exhausted now
        else reset_idle_timer s.id)

-- A message within a session that is active.
unfoldable pub accept_message : SessionConfig → Session → Sender → String → ℕ → Step
unfolding charge_message forward end_session_internal reset_idle_timer
accept_message config s sender content now =
    if leb config.max_messages_per_session (length s.messages)
    then end_session_internal s budget_exhausted now
    else if is_per_message s.pricing_model && is_provider sender
    then charge_message config s sender content now
    else forward s sender content >> reset_idle_timer s.id

unfoldable pub route_to :
    SessionConfig → String → Sender → String → String → ℕ → Option Session → Step
unfolding accept_message
route_to config id sender content key now none = send_to_agent key (session_not_found id)
route_to config id sender content key now (some s) =
    if accepts_messages s.status
    then accept_message config s sender content now
    else send_to_agent key (session_not_active id)

unfoldable pub route_message : SessionConfig → String → Sender → String → String → ℕ → Step
unfolding route_to
route_message config id sender content key now w =
    route_to config id sender content key now (get id w.sessions) w

unfoldable pub end_if_live : SessionEndReason → ℕ → Option Session → Step
unfolding end_session_internal
end_if_live reason now none = pure tt
end_if_live reason now (some s) =
    if is_live s.status then end_session_internal s reason now else pure tt

-- `endSession`, and the callback of the duration timer at the reason `timeout`.
unfoldable pub end_session : String → SessionEndReason → ℕ → Step
unfolding end_if_live
end_session id reason now w = end_if_live reason now (get id w.sessions) w

unfoldable pub end_if_active : ℕ → Option Session → Step
unfolding end_session_internal
end_if_active now none = pure tt
end_if_active now (some s) =
    if accepts_messages s.status then end_session_internal s timeout now else pure tt

-- The callback of the idle timer.
unfoldable pub idle_timeout : String → ℕ → Step
unfolding end_if_active
idle_timeout id now w = end_if_active now (get id w.sessions) w

unfoldable pub end_each : List String → ℕ → Step
unfolding end_session
end_each [] now = pure tt
end_each (id ∷ ids) now = end_session id error now >> end_each ids now

unfoldable pub handle_disconnect : String → ℕ → Step
unfolding end_each
handle_disconnect key now w = end_each (or_new_set (get key w.agent_sessions)) now w

-- `shutdown`: all timers are cleared.
unfoldable pub shutdown : Step
shutdown = modify λ w. record w { idle_timers = []; duration_timers = [] }
