-- ===== src/Session/Tests.antt =====
-- Runs of the manager of sessions: a session of one paid message, and a closed one.
use agentbnb.Prelude.{ℕ, ◌≡◌, refl, none, some, List, [], ◌∷◌, get, put, str_eq_iff, arith}
use agentbnb.Credit.Types.{held, lifecycle, from_balance}
use agentbnb.Credit.Db.{Db, open_credit_db}
use agentbnb.Session.Types.{
  Session, active, closed, per_message, requester, provider, completed, SessionConfig, OpenMessage,
  World, is_live,
}
use agentbnb.Session.Manager.{end_session}
use agentbnb.Session.Manager.Closed.{
  Event, message, end_request, idle_timer, run_events, run_events_closed,
}
use agentbnb.Session.Manager.Accounts.{Accounted, account_of, store-Accounted}
use agentbnb.Session.Manager.Ending.{Accounts}
use agentbnb.Session.Manager.Opening.{
  Command, open_command, event, run_commands, run_commands-Accounts,
}
use agentbnb.Session.Manager.Payment.{payment, ended, end_session_pays}

abbrev config : SessionConfig
config = record {
  per_message_base_rate = 2;
  per_session_flat_rate = 10;
  max_messages_per_session = 50;
  max_concurrent_sessions_per_agent = 5;
}

abbrev rich : Db
rich = record open_credit_db {
  balances = (record { owner = "ann"; balance = 60; updated_at = 1 }) ∷ [];
}

abbrev start : World
start = record {
  sessions = [];
  agent_sessions = [];
  idle_timers = [];
  duration_timers = [];
  tracking = [];
  outbox = [];
  credit_db = rich;
}

abbrev opening : OpenMessage
opening = record {
  session_id = "s";
  requester_id = "ann";
  provider_id = "bob";
  card_id = "card";
  budget = 5;
  pricing_model = per_message;
  initial_message = "hi";
}

abbrev commands : List (Command × ℕ)
commands =
    (open_command opening "ann" "e", 2)
    ∷ (event (message provider "yes" "bob") "s", 3)
    ∷ (event (end_request completed) "s", 4)
    ∷ []

no_sessions : Accounted [] []
unfolding get
no_sessions = record {
  keyed = λ id s h. ground (arith, h);
  tracked = λ id s h l. ground (arith, h);
  apart = λ i j s t h k l m e. ground (arith, h);
}

run_commands-Accounts_example : Accounts (run_commands config commands start)
unfolding get
run_commands-Accounts_example =
    run_commands-Accounts config commands start no_sessions
      ((λ j t h l e. ground (arith, h)), (tt, (tt, tt)))

abbrev talking : Session
talking = record {
  id = "s";
  requester_id = "ann";
  provider_id = "bob";
  card_id = "card";
  status = active;
  escrow_id = "e";
  budget = 5;
  spent = 2;
  pricing_model = per_message;
  messages = [];
  end_reason = none;
}

abbrev paying : Db
paying = record open_credit_db {
  balances =
      (record { owner = "ann"; balance = 60; updated_at = 1 })
      ∷ (record { owner = "bob"; balance = 0; updated_at = 1 })
      ∷ [];
  escrows =
      (record {
        id = "e";
        owner = "ann";
        amount = 5;
        card_id = "card";
        status = lifecycle held;
        created_at = 1;
        settled_at = none;
        funding_source = from_balance;
      })
      ∷ [];
}

abbrev during : World
during = record start {
  credit_db = paying;
  sessions = ("s", talking) ∷ [];
  tracking = ("e", account_of talking) ∷ [];
}

during-Accounts : Accounts during
unfolding get put
during-Accounts =
    store-Accounted [] [] (("e", account_of talking) ∷ []) talking no_sessions
      (λ j t h l e. ground (arith, h))
      (λ e h. ground (arith, h, str_eq_iff e "e", str_eq_iff "e" e)) (λ l. refl)

end_session_pays_example :
    (let (r, db) = payment talking 4 during.credit_db in
      let after = (end_session "s" completed 4 during).1 in
      (after.credit_db ≡ db) × (get "s" after.sessions ≡ some (ended talking completed r)))
unfolding get is_live
end_session_pays_example = end_session_pays "s" talking completed 4 during during-Accounts refl refl

abbrev over : World
over = record start { sessions = ("s", record talking { status = closed }) ∷ [] }

abbrev late : List (Event × ℕ)
late = (message requester "more" "ann", 5) ∷ (idle_timer, 6) ∷ []

run_events_closed_example :
    ((run_events config late "s" over).credit_db ≡ over.credit_db)
    × ((run_events config late "s" over).tracking ≡ over.tracking)
    × (get "s" (run_events config late "s" over).sessions
        ≡ some (record talking { status = closed }))
unfolding get is_live
run_events_closed_example =
    run_events_closed config late "s" (record talking { status = closed }) over refl refl
