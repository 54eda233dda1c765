-- ===== src/Credit/Metrics/Rates.antt =====
-- `getReliabilityMetrics` (src/credit/reliability-metrics.ts). The quotients, which are doubles, are the
-- arguments `nought` and `over`.
use agentbnb.Prelude.{
  ℕ, ◌≤◌, ◌≡◌, refl, String, List, Option, none, some, ltb, if◌then◌else◌, inl, inr, Bool-cases,
}
use agentbnb.Credit.Table.{select_first}
use agentbnb.Credit.Rows.{All-select_first}
use agentbnb.Credit.Db.{Db, MetricsRow, metrics_of}
use agentbnb.Credit.Owner.{canonicalize_credit_owner}
use agentbnb.Credit.Metrics.Sound.{IsSound, AreSound, canonicalize_credit_owner-AreSound}

pub record ReliabilityMetrics (F : Type 0) : Type 0 where
  pub current_streak : ℕ
  pub longest_streak : ℕ
  pub total_hires : ℕ
  pub repeat_hires : ℕ
  pub repeat_hire_rate : F
  pub avg_feedback_score : F
  pub availability_rate : F

module _ {F : Type 0} (nought : F) (over : ℕ → ℕ → F) where
  abbrev rate : ℕ → ℕ → F
  rate part whole = if ltb 0 whole then over part whole else nought

  abbrev pub metrics_from : MetricsRow → ReliabilityMetrics F
  metrics_from r = record {
    current_streak = r.current_streak;
    longest_streak = r.longest_streak;
    total_hires = r.total_hires;
    repeat_hires = r.repeat_hires;
    repeat_hire_rate = rate r.repeat_hires r.total_hires;
    avg_feedback_score = rate r.feedback_sum r.feedback_count;
    availability_rate = rate r.availability_hits r.availability_checks;
  }

  abbrev pub metrics_if : Option MetricsRow → Option (ReliabilityMetrics F)
  metrics_if none = none
  metrics_if (some r) = some (metrics_from r)

  unfoldable pub get_reliability_metrics : String → ℕ → Db → Option (ReliabilityMetrics F) × Db
  get_reliability_metrics owner now db =
      let (o, db') = canonicalize_credit_owner owner now db in
      (metrics_if (select_first (metrics_of o) db'.metrics), db')

  module _ (IsRate : F → Type 0) where
    abbrev AreRates : Option (ReliabilityMetrics F) → Type 0
    AreRates none = Unit
    AreRates (some m) = IsRate m.repeat_hire_rate × IsRate m.availability_rate

    -- What holds of 0 and of every quotient of a part by a whole holds of the rates of repeats and of
    -- availability that are read, if the counters of every row are within their bounds.
    pub get_reliability_metrics-AreRates :
        (owner : String) (now : ℕ) (db : Db)
        → IsRate nought
        → ((part whole : ℕ) → part ≤ whole → IsRate (over part whole))
        → AreSound db
        → AreRates (get_reliability_metrics owner now db).0
    unfolding get_reliability_metrics
    get_reliability_metrics-AreRates owner now db zero_rate part_rate sound = read _ refl
      where
        o : String
        o = (canonicalize_credit_owner owner now db).0

        rows : List MetricsRow
        rows = (canonicalize_credit_owner owner now db).1.metrics

        rate-IsRate : (part whole : ℕ) → part ≤ whole → IsRate (rate part whole)
        rate-IsRate part whole le = elim (Bool-cases (ltb 0 whole)) [
          | inl e ↦ rw e (part_rate part whole le)
          | inr e ↦ rw e zero_rate
        ]

        read :
            (q : Option MetricsRow) → select_first (metrics_of o) rows ≡ q → AreRates (metrics_if q)
        read none e = tt
        read (some r) e =
            let s =
              All-select_first IsSound (metrics_of o) rows r
                (canonicalize_credit_owner-AreSound owner now db sound) e in
            (
              rate-IsRate r.repeat_hires r.total_hires s.repeats,
              rate-IsRate r.availability_hits r.availability_checks s.hits,
            )
