-- ===== src/Autonomy/Tiers.antt =====
-- src/autonomy/tiers.ts: the tier of an amount, and the audit events in `request_log`. The random id
-- of a row is left out; the idle rate, the peer and the reason of an event are written nowhere.
use agentbnb.Prelude.{ℕ, String, List, ltb, if◌then◌else◌}
use agentbnb.Credit.Table.{insert}

pub data AutonomyTier : Type 0 where
  tier1 tier2 tier3 : AutonomyTier

pub record AutonomyConfig : Type 0 where
  pub tier1_max_credits : ℕ
  pub tier2_max_credits : ℕ

abbrev pub default_autonomy_config : AutonomyConfig
default_autonomy_config = record { tier1_max_credits = 0; tier2_max_credits = 0 }

unfoldable pub get_autonomy_tier : ℕ → AutonomyConfig → AutonomyTier
get_autonomy_tier credit_amount config =
    if ltb credit_amount config.tier1_max_credits
    then tier1
    else if ltb credit_amount config.tier2_max_credits
    then tier2
    else tier3

-- The `type` of an event.
pub data ActionType : Type 0 where
  auto_share auto_share_notify auto_share_pending : ActionType
  auto_request auto_request_notify auto_request_pending auto_request_failed : ActionType

pub data AutonomyEvent : Type 0 where
  share_event : ActionType → String → AutonomyTier → AutonomyEvent
  request_event : ActionType → String → String → AutonomyTier → ℕ → AutonomyEvent

pub record RequestLogRow : Type 0 where
  pub card_id : String
  pub card_name : String
  pub requester : String
  pub status : String
  pub latency_ms : ℕ
  pub credits_charged : ℕ
  pub created_at : ℕ
  pub skill_id : String
  pub action_type : ActionType
  pub tier_invoked : AutonomyTier

abbrev audit_row : String → ℕ → String → ActionType → AutonomyTier → ℕ → RequestLogRow
audit_row card_id credits skill_id action tier now = record {
  card_id = card_id;
  card_name = "autonomy-audit";
  requester = "self";
  status = "success";
  latency_ms = 0;
  credits_charged = credits;
  created_at = now;
  skill_id = skill_id;
  action_type = action;
  tier_invoked = tier;
}

unfoldable pub insert_audit_event : AutonomyEvent → ℕ → List RequestLogRow → List RequestLogRow
insert_audit_event (share_event action skill_id tier) now rows =
    insert (audit_row "system" 0 skill_id action tier now) rows
insert_audit_event (request_event action card_id skill_id tier credits) now rows =
    insert (audit_row card_id credits skill_id action tier now) rows
