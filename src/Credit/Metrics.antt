-- ===== src/Credit/Metrics.antt =====
-- src/credit/reliability-metrics.ts: streaks, hires, feedback and availability of a provider.
pub mod Sound
pub mod Repeats
pub mod Rates
use agentbnb.Prelude.{
  ℕ, ◌+◌, max, Bool, true, false, ◌&&◌, String, List, [], ◌∷◌, Option, none, some, ltb, any, str_eq,
  if◌then◌else◌,
}
use agentbnb.Credit.Types.{TxReason, settlement}
use agentbnb.Credit.Table.{select_first, select_all, count, update_where, insert_or_ignore}
use agentbnb.Credit.Db.{
  Db, MetricsRow, TxRow, EscrowRow, Action, ok, pure, modify, ◌>>=◌, ◌>>◌, metrics_of,
}
use agentbnb.Credit.Owner.{canonicalize}

abbrev pub new_metrics : String → ℕ → MetricsRow
new_metrics owner now = record {
  owner = owner;
  current_streak = 0;
  longest_streak = 0;
  total_hires = 0;
  repeat_hires = 0;
  feedback_count = 0;
  feedback_sum = 0;
  availability_checks = 0;
  availability_hits = 0;
  cycle_start = now;
  updated_at = now;
}

unfoldable pub ensure_row : String → ℕ → Action (Unit {0})
ensure_row owner now = do
  o ← canonicalize owner now
  modify
      λ db. record db { metrics = insert_or_ignore (metrics_of o) (new_metrics o now) db.metrics }

-- `UPDATE provider_reliability_metrics SET … WHERE owner = ?`.
abbrev pub update_metrics : String → (MetricsRow → MetricsRow) → Action (Unit {0})
update_metrics o f = modify λ db. record db { metrics = update_where (metrics_of o) f db.metrics }

abbrev pub is_settlement : TxReason → Bool
is_settlement settlement = true
is_settlement _ = false

abbrev pub has_escrow : String → String → List EscrowRow → Bool
has_escrow id consumer escrows = any (λ e. str_eq e.id id && str_eq e.owner consumer) escrows

-- A settlement to the provider of an escrow of the consumer.
abbrev pub is_hire : String → String → List EscrowRow → TxRow → Bool
is_hire provider consumer escrows t =
    str_eq t.owner provider
    && is_settlement t.reason
    && (elim t.reference_id [ none ↦ false | some id ↦ has_escrow id consumer escrows ])

unfoldable pub repeat_increment : String → String → Db → ℕ
repeat_increment provider consumer db =
    if ltb 0 (count (is_hire provider consumer db.escrows) db.transactions) then 1 else 0

unfoldable pub after_hire : ℕ → ℕ → MetricsRow → MetricsRow
after_hire repeats now r = record r {
  current_streak = r.current_streak + 1;
  longest_streak = max r.longest_streak (r.current_streak + 1);
  total_hires = r.total_hires + 1;
  repeat_hires = r.repeat_hires + repeats;
  updated_at = now;
}

unfoldable pub record_successful_hire : String → String → ℕ → Action (Unit {0})
unfolding ensure_row repeat_increment after_hire
record_successful_hire provider_owner consumer_owner now = do
  p ← canonicalize provider_owner now
  c ← canonicalize consumer_owner now
  ensure_row p now
  λ db. update_metrics p (after_hire (repeat_increment p c db) now) db

unfoldable pub after_failure : ℕ → MetricsRow → MetricsRow
after_failure now r = record r { current_streak = 0; updated_at = now }

unfoldable pub record_quality_failure : String → ℕ → Action (Unit {0})
unfolding ensure_row after_failure
record_quality_failure provider_owner now = do
  p ← canonicalize provider_owner now
  ensure_row p now
  update_metrics p (after_failure now)

unfoldable pub after_feedback : ℕ → ℕ → MetricsRow → MetricsRow
after_feedback score now r = record r {
  feedback_count = r.feedback_count + 1;
  feedback_sum = r.feedback_sum + score;
  updated_at = now;
}

unfoldable pub record_feedback : String → ℕ → ℕ → Action (Unit {0})
unfolding ensure_row after_feedback
record_feedback provider_owner score now = do
  p ← canonicalize provider_owner now
  ensure_row p now
  update_metrics p (after_feedback score now)

unfoldable pub after_check : Bool → ℕ → MetricsRow → MetricsRow
after_check was_available now r = record r {
  availability_checks = r.availability_checks + 1;
  availability_hits = r.availability_hits + (if was_available then 1 else 0);
  updated_at = now;
}

unfoldable pub record_availability_check : String → Bool → ℕ → Action (Unit {0})
unfolding ensure_row after_check
record_availability_check provider_owner was_available now = do
  p ← canonicalize provider_owner now
  ensure_row p now
  update_metrics p (after_check was_available now)
