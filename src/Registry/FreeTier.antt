-- ===== src/Registry/FreeTier.antt =====
-- src/registry/free-tier.ts: how often an agent has used a skill for free.
pub mod Uses
use agentbnb.Prelude.{ℕ, suc, Bool, ◌&&◌, String, List, Option, none, some, str_eq}
use agentbnb.Credit.Table.{select_first, update_where, insert}

pub record UsageRow : Type 0 where
  pub agent_public_key : String
  pub skill_id : String
  pub usage_count : ℕ
  pub last_used_at : ℕ

abbrev pub usage_at : String → String → UsageRow → Bool
usage_at agent skill r = str_eq r.agent_public_key agent && str_eq r.skill_id skill

abbrev pub used_again : ℕ → UsageRow → UsageRow
used_again now r = record r { usage_count = suc r.usage_count; last_used_at = now }

-- `INSERT … ON CONFLICT … DO UPDATE`.
unfoldable pub record_free_tier_use : String → String → ℕ → List UsageRow → List UsageRow
record_free_tier_use agent skill now rows = elim (select_first (usage_at agent skill) rows) [
  | none ↦
      insert
        (record { agent_public_key = agent; skill_id = skill; usage_count = 1; last_used_at = now })
        rows
  | some old ↦ update_where (usage_at agent skill) (used_again now) rows
]

abbrev pub usage_of : Option UsageRow → ℕ
usage_of none = 0
usage_of (some r) = r.usage_count

unfoldable pub get_free_tier_usage : String → String → List UsageRow → ℕ
get_free_tier_usage agent skill rows = usage_of (select_first (usage_at agent skill) rows)
