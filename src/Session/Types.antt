-- ===== src/Session/Types.antt =====
-- src/session/session-types.ts: what the escrow and the manager of sessions read. Times are left out,
-- and so are the fields for rentals, which they never touch.
use agentbnb.Prelude.{ℕ, String, List, Option, Bool, true, false, Dict, ℤ}
use agentbnb.Credit.Db.{Db}
use agentbnb.Credit.Types.{CreditError}

-- `opened` is the status 'open'.
pub data SessionStatus : Type 0 where
  opened active closing settled closed : SessionStatus

pub data SessionPricingModel : Type 0 where
  per_message per_minute per_session : SessionPricingModel

pub data SessionEndReason : Type 0 where
  completed timeout budget_exhausted error cancelled : SessionEndReason

pub data Sender : Type 0 where
  requester provider : Sender

pub record SessionMessage : Type 0 where
  pub sender : Sender
  pub content : String

pub record Session : Type 0 where
  pub id : String
  pub requester_id : String
  pub provider_id : String
  pub card_id : String
  pub status : SessionStatus
  pub escrow_id : String
  pub budget : ℕ
  pub spent : ℕ
  pub pricing_model : SessionPricingModel
  pub messages : List SessionMessage
  pub end_reason : Option SessionEndReason

-- The settings that the manager reads.
pub record SessionConfig : Type 0 where
  pub per_message_base_rate : ℕ
  pub per_session_flat_rate : ℕ
  pub max_messages_per_session : ℕ
  pub max_concurrent_sessions_per_agent : ℕ

pub record OpenMessage : Type 0 where
  pub session_id : String
  pub requester_id : String
  pub provider_id : String
  pub card_id : String
  pub budget : ℕ
  pub pricing_model : SessionPricingModel
  pub initial_message : String

-- The budget of an escrow and what is spent of it.
pub record Tracking : Type 0 where
  pub budget : ℕ
  pub spent : ℕ

-- What the relay sends to an agent.
pub data Notice : Type 0 where
  max_concurrent_sessions session_not_found session_not_active : String → Notice
  session_ack : String → String → Notice
  session_message : String → Sender → String → Notice
  session_settled : String → ℕ → ℕ → ℤ → Notice

pub data SessionError : Type 0 where
  too_many_sessions : SessionError
  no_tracking : String → SessionError
  credit_failed : CreditError → SessionError

-- The state of the manager, of its `SessionEscrow`, and the credit database.
pub record World : Type 0 where
  pub sessions : Dict Session
  pub agent_sessions : Dict (List String)
  pub idle_timers : List String
  pub duration_timers : List String
  pub tracking : Dict Tracking
  pub outbox : List (String × Notice)
  pub credit_db : Db

pub data Outcome (A : Type 0) : Type 0 where
  done : A → Outcome A
  thrown : SessionError → Outcome A

-- `status !== 'settled' && status !== 'closed'`.
unfoldable pub is_live : SessionStatus → Bool
is_live opened = true
is_live active = true
is_live closing = true
is_live settled = false
is_live closed = false

unfoldable pub accepts_messages : SessionStatus → Bool
accepts_messages opened = false
accepts_messages active = true
accepts_messages closing = false
accepts_messages settled = false
accepts_messages closed = false

-- What was changed before an exception stays changed.
abbrev pub Task : Type 0 → Type 0
Task A = World → Outcome A × World

abbrev pub pure : {A : Type 0} → A → Task A
pure a w = (done a, w)

abbrev pub throw : {A : Type 0} → SessionError → Task A
throw e w = (thrown e, w)

abbrev pub continue_with : {A B : Type 0} → (A → Task B) → Outcome A × World → Outcome B × World
continue_with f (done a, w) = f a w
continue_with f (thrown e, w) = (thrown e, w)

infixl 5 ◌>>=◌ ◌>>◌
abbrev pub ◌>>=◌ : {A B : Type 0} → Task A → (A → Task B) → Task B
◌>>=◌ m f w = continue_with f (m w)

abbrev pub ◌>>◌ : {A B : Type 0} → Task A → Task B → Task B
m >> k = m >>= λ _. k

abbrev pub modify : (World → World) → Task (Unit {0})
modify f w = (done tt, f w)
