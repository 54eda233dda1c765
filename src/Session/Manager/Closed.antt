-- ===== src/Session/Manager/Closed.antt =====
-- A session that is settled or closed stays so, and moves no credits any more.
use agentbnb.Prelude.{ℕ, ◌≡◌, refl, ap, ◌∙◌, false, String, some, List, [], ◌∷◌, get, arith}
use agentbnb.Session.Types.{
  Session, SessionStatus, opened, active, closing, settled, closed, SessionEndReason, timeout,
  Sender, SessionConfig, World, is_live, accepts_messages,
}
use agentbnb.Session.Manager.{
  Step, route_message, route_to, end_session, end_if_live, idle_timeout, end_if_active,
}

-- What can happen to a session: a message, which its sender's connection brings, a request to end it,
-- and the callbacks of its timers.
pub data Event : Type 0 where
  message : Sender → String → String → Event
  end_request : SessionEndReason → Event
  idle_timer duration_timer : Event

abbrev pub run_event : SessionConfig → Event → String → ℕ → Step
run_event config (message sender content key) id now =
    route_message config id sender content key now
run_event config (end_request reason) id now = end_session id reason now
run_event config idle_timer id now = idle_timeout id now
run_event config duration_timer id now = end_session id timeout now

-- The state after a sequence of them, each at its time, whether it succeeds or fails.
unfoldable pub run_events : SessionConfig → List (Event × ℕ) → String → World → World
run_events config [] id w = w
run_events config ((e, now) ∷ rest) id w = run_events config rest id (run_event config e id now w).1

live_of_active : (s : SessionStatus) → is_live s ≡ false → accepts_messages s ≡ false
unfolding is_live accepts_messages
live_of_active opened h = refl
live_of_active active h = ground (arith, h)
live_of_active closing h = refl
live_of_active settled h = refl
live_of_active closed h = refl

-- Nothing of the state changes but the messages to be sent.
abbrev SameCredits : World → World → Type 0
SameCredits v w =
    (v.credit_db ≡ w.credit_db) × (v.sessions ≡ w.sessions) × (v.tracking ≡ w.tracking)

module _ (config : SessionConfig) (id : String) (now : ℕ) (s : Session) (w : World)
    (found : get id w.sessions ≡ some s) (over : is_live s.status ≡ false) where
  run_event-SameCredits : (e : Event) → SameCredits (run_event config e id now w).1 w
  unfolding route_message route_to end_session end_if_live idle_timeout end_if_active
  run_event-SameCredits (message sender content key) =
      ground (arith, found, over, live_of_active s.status over)
  run_event-SameCredits (end_request reason) = ground (arith, found, over)
  run_event-SameCredits idle_timer = ground (arith, found, over, live_of_active s.status over)
  run_event-SameCredits duration_timer = ground (arith, found, over)

-- Once a session is settled or closed, any sequence of messages, requests to end it and callbacks of
-- its timers leaves the credit database, the tracking of escrows and the session as they are.
pub run_events_closed :
    (config : SessionConfig) (events : List (Event × ℕ)) (id : String) (s : Session) (w : World)
    → get id w.sessions ≡ some s
    → is_live s.status ≡ false
    → ((run_events config events id w).credit_db ≡ w.credit_db)
      × ((run_events config events id w).tracking ≡ w.tracking)
      × (get id (run_events config events id w).sessions ≡ some s)
unfolding run_events
run_events_closed config [] id s w found over = (refl, refl, found)
run_events_closed config ((e, now) ∷ rest) id s w found over =
    let same = run_event-SameCredits config id now s w found over e in
    let next = (run_event config e id now w).1 in
    let ih = run_events_closed config rest id s next (ap (get id) same.1 ∙ found) over in
    (ih.0 ∙ same.0, ih.1 ∙ same.2, ih.2)
