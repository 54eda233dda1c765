-- ===== src/Session/Manager/Opening.antt =====
-- Opening a session keeps the accounts when its escrow is new, and so does every run of the manager.
use agentbnb.Prelude.{
  ℕ, ◌+◌, ◌≡◌, ◌≢◌, refl, subst, ◌⊎◌, true, false, Bool-cases, inl, inr, String, some, List, [],
  ◌∷◌, Dict, get, put, get-put, put-put, str_eq, str_eq_iff, arith,
}
use agentbnb.Credit.Types.{CreditError}
use agentbnb.Credit.Db as Credit
use agentbnb.Credit.Db.{Db, Action, Result, ok, err}
use agentbnb.Credit.Escrow.{hold_escrow}
use agentbnb.Session.Types.{
  Session, requester, active, timeout, SessionConfig, OpenMessage, Tracking, World, is_live,
}
use agentbnb.Session.Escrow.{hold_budget, deduct}
use agentbnb.Session.Manager.{
  Step, store, track_agent_session, charge_flat, reset_idle_timer, start_duration_timer,
  begin_session, open_session, new_session, with_message, is_per_session, is_full,
  handle_disconnect,
}
use agentbnb.Session.Manager.Closed.{
  Event, message, end_request, idle_timer, duration_timer, run_event,
}
use agentbnb.Session.Manager.Accounts.{account_of, Accounted, store-Accounted}
use agentbnb.Session.Manager.Ending.{Accounts}
use agentbnb.Session.Manager.Kept.{
  route_message-Accounts, end_session-Accounts, idle_timeout-Accounts, handle_disconnect-Accounts,
}

-- No live session has the escrow.
abbrev pub IsNewEscrow : String → World → Type 0
IsNewEscrow escrow_id w =
    (j : String) (t : Session)
    → get j w.sessions ≡ some t
    → is_live t.status ≡ true
    → t.escrow_id ≢ escrow_id

module _ (config : SessionConfig) (msg : OpenMessage) (key escrow_id : String) (w : World)
    (before : Accounts w) (new : IsNewEscrow escrow_id w) where
  abbrev s : Session
  s = new_session msg escrow_id

  abbrev s1 : Session
  s1 = record (with_message s requester msg.initial_message) { status = active }

  abbrev s2 : Session
  s2 = record s1 { spent = config.per_session_flat_rate }

  alone :
      (j : String) (t : Session)
      → get j w.sessions ≡ some t
      → is_live t.status ≡ true
      → t.escrow_id ≡ escrow_id
      → j ≡ msg.session_id
  alone j t h l e = absurd (new j t h l e)

  put_own : (t : Tracking) (ts : Dict Tracking) → get escrow_id (put escrow_id t ts) ≡ some t
  put_own t ts = ground (arith, get-put escrow_id escrow_id t ts, str_eq_iff escrow_id escrow_id)

  put_others :
      (t : Tracking) (e : String)
      → str_eq e escrow_id ≡ false
      → get e (put escrow_id t w.tracking) ≡ get e w.tracking
  put_others t e h =
      ground
        (arith, h, get-put e escrow_id t w.tracking, str_eq_iff e escrow_id, str_eq_iff escrow_id e)

  stored_one : Accounted (put s.id s1 w.sessions) (put escrow_id (account_of s1) w.tracking)
  stored_one =
      store-Accounted w.sessions w.tracking (put escrow_id (account_of s1) w.tracking) s1 before
        alone (put_others (account_of s1)) (λ l. put_own (account_of s1) w.tracking)

  stored_flat : Accounted (put s.id s2 w.sessions) (put escrow_id (account_of s2) w.tracking)
  stored_flat =
      store-Accounted w.sessions w.tracking (put escrow_id (account_of s2) w.tracking) s2 before
        alone (put_others (account_of s2)) (λ l. put_own (account_of s2) w.tracking)

  abbrev held_world : Db → World
  held_world db = record w { credit_db = db; tracking = put escrow_id (account_of s) w.tracking }

  from_zero : config.per_session_flat_rate ≡ 0 + config.per_session_flat_rate
  from_zero = omega arith

  begin_session-Accounts : (db : Db) → Accounts (begin_session config msg key s (held_world db)).1
  unfolding begin_session store track_agent_session reset_idle_timer start_duration_timer
      charge_flat deduct
  begin_session-Accounts db = elim (Bool-cases (is_per_session msg.pricing_model)) [
    | inl e ↦
        rw (e, put_own (account_of s) w.tracking, charge_flat, deduct)
          (rw (put-put, put-put, put-put)
            (subst
              (λ n.
                Accounted (put s.id s2 w.sessions)
                  (put escrow_id (record { budget = msg.budget; spent = n }) w.tracking))
              from_zero stored_flat))
    | inr e ↦ rw (e, charge_flat) (rw put-put stored_one)
  ]

-- An action and then a result: the result, or the failure of the action.
ends_with :
    {A : Type 0} (id : String) (r : Result A × Db)
    → ((db : Db) × (Credit.continue_with (λ _. Credit.pure id) r ≡ (ok id, db)))
      ⊎ ((e : CreditError) × (db : Db) × (Credit.continue_with (λ _. Credit.pure id) r
            ≡ (err e, db)))
ends_with id (ok a, db) = inl (db, refl)
ends_with id (err e, db) = inr (e, db, refl)

-- `holdEscrow` returns the id that it was given, or fails.
hold_escrow-id :
    (owner : String) (amount : ℕ) (card_id id : String) (now : ℕ) (before : Db)
    → ((db : Db) × (hold_escrow owner amount card_id id now before ≡ (ok id, db)))
      ⊎ ((e : CreditError) × (db : Db) × (hold_escrow owner amount card_id id now before
            ≡ (err e, db)))
unfolding hold_escrow
hold_escrow-id owner amount card_id id now before = ends_with id _

pub open_session-Accounts :
    (config : SessionConfig) (msg : OpenMessage) (key escrow_id : String) (now : ℕ) (w : World)
    → Accounts w
    → IsNewEscrow escrow_id w
    → Accounts (open_session config msg key escrow_id now w).1
unfolding open_session hold_budget
open_session-Accounts config msg key escrow_id now w before new =
    elim (Bool-cases (is_full config (get key w.agent_sessions))) [
      | inl f ↦ rw f before
      | inr f ↦
          elim (hold_escrow-id msg.requester_id msg.budget msg.card_id escrow_id now w.credit_db) [
            | inl (db, h) ↦
                rw (f, h) (begin_session-Accounts config msg key escrow_id w before new db)
            | inr (e, db, h) ↦ rw (f, h) before
          ]
    ]

-- What the relay asks of the manager: to open a session under a new escrow, an event of a session, or
-- the end of a connection.
pub data Command : Type 0 where
  open_command : OpenMessage → String → String → Command
  event : Event → String → Command
  disconnect : String → Command

abbrev pub run_command : SessionConfig → Command → ℕ → Step
run_command config (open_command msg key escrow_id) now = open_session config msg key escrow_id now
run_command config (event e id) now = run_event config e id now
run_command config (disconnect key) now = handle_disconnect key now

unfoldable pub run_commands : SessionConfig → List (Command × ℕ) → World → World
run_commands config [] w = w
run_commands config ((c, now) ∷ rest) w = run_commands config rest (run_command config c now w).1

abbrev pub OpensNew : Command → World → Type 0
OpensNew (open_command msg key escrow_id) w = IsNewEscrow escrow_id w
OpensNew (event e id) w = Unit
OpensNew (disconnect key) w = Unit

-- Every session that the commands open gets an escrow that no live session has then.
abbrev pub AllOpenNew : SessionConfig → List (Command × ℕ) → World → Type 0
AllOpenNew config [] w = Unit
AllOpenNew config ((c, now) ∷ rest) w =
    OpensNew c w × AllOpenNew config rest (run_command config c now w).1

run_command-Accounts :
    (config : SessionConfig) (c : Command) (now : ℕ) (w : World)
    → Accounts w
    → OpensNew c w
    → Accounts (run_command config c now w).1
run_command-Accounts config (open_command msg key escrow_id) now w a n =
    open_session-Accounts config msg key escrow_id now w a n
run_command-Accounts config (event (message sender content key) id) now w a n =
    route_message-Accounts w a id now config sender content key
run_command-Accounts config (event (end_request reason) id) now w a n =
    end_session-Accounts w a id now reason
run_command-Accounts config (event idle_timer id) now w a n = idle_timeout-Accounts w a id now
run_command-Accounts config (event duration_timer id) now w a n =
    end_session-Accounts w a id now timeout
run_command-Accounts config (disconnect key) now w a n = handle_disconnect-Accounts key now w a

-- The accounts hold after any run of commands that starts where they hold, whatever the credit system
-- answers, if every session that is opened gets an escrow that no live session has: each session
-- is stored under its own id, what a live session has spent of its budget is what its escrow
-- tracks, and no two live sessions share an escrow.
pub run_commands-Accounts :
    (config : SessionConfig) (commands : List (Command × ℕ)) (w : World)
    → Accounts w
    → AllOpenNew config commands w
    → Accounts (run_commands config commands w)
unfolding run_commands
run_commands-Accounts config [] w a n = a
run_commands-Accounts config ((c, now) ∷ rest) w a n =
    run_commands-Accounts config rest (run_command config c now w).1
      (run_command-Accounts config c now w a n.0) n.1
