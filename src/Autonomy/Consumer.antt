-- ===== src/Autonomy/Consumer.antt =====
-- src/autonomy/consumer-autonomy.ts: the limits on what the consumer of a session spends without being
-- asked. The texts of warnings and errors are named by what they say.
use agentbnb.Prelude.{ℕ, suc, ◌+◌, Bool, true, false, ltb, leb, if◌then◌else◌}

pub data MultiSkillPolicy : Type 0 where
  auto notify block : MultiSkillPolicy

pub record ConsumerAutonomyConfig : Type 0 where
  pub session_budget : ℕ
  pub single_request_max : ℕ
  pub multi_skill_policy : MultiSkillPolicy

pub record ConsumerSessionState : Type 0 where
  pub total_spent : ℕ
  pub paid_call_count : ℕ

pub data BudgetCheckResult : Type 0 where
  allowed allowed_with_warning : BudgetCheckResult
  exceeds_single_request_max exceeds_session_budget multi_skill_blocked : BudgetCheckResult

abbrev pub is_allowed : BudgetCheckResult → Bool
is_allowed allowed = true
is_allowed allowed_with_warning = true
is_allowed exceeds_single_request_max = false
is_allowed exceeds_session_budget = false
is_allowed multi_skill_blocked = false

abbrev pub default_consumer_autonomy : ConsumerAutonomyConfig
default_consumer_autonomy = record {
  session_budget = 50;
  single_request_max = 20;
  multi_skill_policy = notify;
}

abbrev pub create_session_state : ConsumerSessionState
create_session_state = record { total_spent = 0; paid_call_count = 0 }

-- The policy for a paid call that is not the first.
abbrev pub by_policy : MultiSkillPolicy → BudgetCheckResult
by_policy block = multi_skill_blocked
by_policy notify = allowed_with_warning
by_policy auto = allowed

unfoldable pub check_consumer_budget :
    ConsumerAutonomyConfig → ConsumerSessionState → ℕ → BudgetCheckResult
check_consumer_budget config session estimated_cost =
    if leb estimated_cost 0
    then allowed
    else if ltb config.single_request_max estimated_cost
    then exceeds_single_request_max
    else if ltb config.session_budget (session.total_spent + estimated_cost)
    then exceeds_session_budget
    else if ltb 0 session.paid_call_count
    then by_policy config.multi_skill_policy
    else allowed

unfoldable pub record_consumer_spend : ConsumerSessionState → ℕ → ConsumerSessionState
record_consumer_spend session credits_spent =
    if ltb 0 credits_spent
    then record {
      total_spent = session.total_spent + credits_spent;
      paid_call_count = suc session.paid_call_count;
    }
    else session
