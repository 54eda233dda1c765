-- ===== src/Autonomy/World.antt =====
-- The state that an automatic request works on, and its steps.
pub use agentbnb.Credit.Flow.{
  Fault, credit_fault, call_fault, Outcome, returned, raised, Flow, pure, continue_with, ◌>>=◌,
  ◌>>◌, catch_with, attempt, lift_credit,
}
use agentbnb.Prelude.{ℕ, String, List}
use agentbnb.Credit.Db.{Db, Action, Result}
use agentbnb.Autonomy.Tiers.{AutonomyEvent, RequestLogRow, insert_audit_event}
use agentbnb.Autonomy.Pending.{PendingRequest, CreatePendingRequestOpts, create_pending_request}

-- The credit database, and the tables `request_log` and `pending_requests` of the registry.
pub record World : Type 0 where
  pub credit_db : Db
  pub request_log : List RequestLogRow
  pub pending_requests : List PendingRequest

abbrev pub lift_result : {A : Type 0} → World → Result A × Db → Outcome A × World
lift_result w = lift_credit (λ db. record w { credit_db = db })

abbrev pub on_credit : {A : Type 0} → Action A → Flow World A
on_credit m w = lift_result w (m w.credit_db)

abbrev pub audit : AutonomyEvent → ℕ → Flow World (Unit {0})
audit event now w =
    (returned tt, record w { request_log = insert_audit_event event now w.request_log })

abbrev pub queue : CreatePendingRequestOpts → String → ℕ → Flow World (Unit {0})
queue opts id now w = (
  returned tt,
  record w { pending_requests = create_pending_request opts id now w.pending_requests },
)
