-- ===== src/Credit/Metrics/Sound.antt =====
-- What the counters of src/credit/reliability-metrics.ts always satisfy.
use agentbnb.Prelude.{ℕ, ◌≤◌, Bool, String, List, arith, inl, inr, Option-cases, All}
use agentbnb.Credit.Table.{select_first}
use agentbnb.Credit.Rows.{
  All-select_first, All-update_where, All-delete_where, All-insert_or_ignore,
}
use agentbnb.Credit.Db.{Db, MetricsRow, metrics_of}
use agentbnb.Credit.Owner.{
  merge_metrics, merge_reliability_rows, move_rows, canonicalize_credit_owner,
}
use agentbnb.Credit.Owner.Induction.{canonicalize_credit_owner_induct}
use agentbnb.Credit.Metrics.{
  new_metrics, ensure_row, repeat_increment, after_hire, record_successful_hire, after_failure,
  record_quality_failure, after_feedback, record_feedback, after_check, record_availability_check,
}

-- The streak is at most the longest one, which is at most the number of hires, and so are the repeats;
-- the hits are among the checks.
pub record IsSound (r : MetricsRow) : Type 0 where
  pub streak : r.current_streak ≤ r.longest_streak
  pub longest : r.longest_streak ≤ r.total_hires
  pub repeats : r.repeat_hires ≤ r.total_hires
  pub hits : r.availability_hits ≤ r.availability_checks

abbrev pub AreSound : Db → Type 0
AreSound db = All IsSound db.metrics

merge_metrics-IsSound :
    (o n : MetricsRow) (now : ℕ) (r : MetricsRow)
    → IsSound o
    → IsSound n
    → IsSound (merge_metrics o n now r)
unfolding merge_metrics
merge_metrics-IsSound o n now r so sn = record {
  streak = omega (arith, so.streak, sn.streak);
  longest = omega (arith, so.longest, sn.longest);
  repeats = omega (arith, so.repeats, sn.repeats);
  hits = omega (arith, so.hits, sn.hits);
}

renamed-IsSound :
    (new : String) (now : ℕ) (r : MetricsRow)
    → IsSound r
    → IsSound (record r { owner = new; updated_at = now })
renamed-IsSound new now r s = record {
  streak = s.streak;
  longest = s.longest;
  repeats = s.repeats;
  hits = s.hits;
}

merge_reliability_rows-IsSound :
    (old new : String) (now : ℕ) (rows : List MetricsRow)
    → All IsSound rows
    → All IsSound (merge_reliability_rows old new now rows)
unfolding merge_reliability_rows
merge_reliability_rows-IsSound old new now rows h =
    elim (Option-cases (select_first (metrics_of old) rows)) [
      | inl e ↦ rw (e, merge_reliability_rows) h
      | inr (o, eo) ↦ elim (Option-cases (select_first (metrics_of new) rows)) [
        | inl e ↦
            rw (eo, e, merge_reliability_rows)
              (All-update_where IsSound (metrics_of old) _ rows (renamed-IsSound new now) h)
        | inr (n, en) ↦
            rw (eo, en, merge_reliability_rows)
              (All-delete_where IsSound (metrics_of old) _ (
                All-update_where IsSound (metrics_of new) _ rows
                  (λ r s.
                    merge_metrics-IsSound o n now r
                      (All-select_first IsSound (metrics_of old) rows o h eo)
                      (All-select_first IsSound (metrics_of new) rows n h en))
                  h))
      ]
    ]

move_rows-AreSound :
    (old new : String) (now : ℕ) (db : Db) → AreSound db → AreSound (move_rows old new now db)
unfolding move_rows
move_rows-AreSound old new now db h = merge_reliability_rows-IsSound old new now db.metrics h

pub canonicalize_credit_owner-AreSound :
    (o : String) (now : ℕ) (db : Db) → AreSound db → AreSound (canonicalize_credit_owner o now db).1
canonicalize_credit_owner-AreSound o now db h =
    canonicalize_credit_owner_induct AreSound now (λ old new d. move_rows-AreSound old new now d) o
      db h

ensure_row-AreSound :
    (o : String) (now : ℕ) (db : Db) → AreSound db → AreSound (ensure_row o now db).1
unfolding ensure_row
ensure_row-AreSound o now db h =
    let resolved = (canonicalize_credit_owner o now db) in
    All-insert_or_ignore IsSound (metrics_of resolved.0) (new_metrics resolved.0 now)
      resolved.1.metrics
      (record {
        streak = omega arith;
        longest = omega arith;
        repeats = omega arith;
        hits = omega arith;
      })
      (canonicalize_credit_owner-AreSound o now db h)

module _ (now : ℕ) (r : MetricsRow) (s : IsSound r) where
  after_hire-IsSound : (repeats : ℕ) → repeats ≤ 1 → IsSound (after_hire repeats now r)
  unfolding after_hire
  after_hire-IsSound repeats h = record {
    streak = omega arith;
    longest = omega (arith, s.streak, s.longest);
    repeats = omega (arith, s.repeats);
    hits = s.hits;
  }

  after_failure-IsSound : IsSound (after_failure now r)
  unfolding after_failure
  after_failure-IsSound = record {
    streak = omega arith;
    longest = s.longest;
    repeats = s.repeats;
    hits = s.hits;
  }

  after_feedback-IsSound : (score : ℕ) → IsSound (after_feedback score now r)
  unfolding after_feedback
  after_feedback-IsSound score = record {
    streak = s.streak;
    longest = s.longest;
    repeats = s.repeats;
    hits = s.hits;
  }

  after_check-IsSound : (b : Bool) → IsSound (after_check b now r)
  unfolding after_check
  after_check-IsSound b = record {
    streak = s.streak;
    longest = s.longest;
    repeats = s.repeats;
    hits = ground (arith, s.hits);
  }

repeat_increment-le : (p c : String) (db : Db) → repeat_increment p c db ≤ 1
unfolding repeat_increment
repeat_increment-le p c db = ground arith

-- If the counters of every row satisfy the bounds of `IsSound`, they do so after each of the four
-- operations, whatever rows the resolution of the owners merges on the way.
pub metrics_sound :
    (p c : String) (score now : ℕ) (was_available : Bool) (db : Db)
    → AreSound db
    → AreSound (record_successful_hire p c now db).1
      × AreSound (record_quality_failure p now db).1
      × AreSound (record_feedback p score now db).1
      × AreSound (record_availability_check p was_available now db).1
unfolding record_successful_hire record_quality_failure record_feedback record_availability_check
metrics_sound p c score now was_available db h =
    let r1 = canonicalize_credit_owner-AreSound p now db h in
    let p1 = (canonicalize_credit_owner p now db).0 in
    let r2 = canonicalize_credit_owner-AreSound c now _ r1 in
    let d2 = (canonicalize_credit_owner c now (canonicalize_credit_owner p now db).1) in
    let ready = ensure_row-AreSound p1 now _ r1 in
    (
      All-update_where IsSound (metrics_of p1) _ _
          (λ r s.
            after_hire-IsSound now r s _ (repeat_increment-le p1 d2.0 (ensure_row p1 now d2.1).1))
          (ensure_row-AreSound p1 now _ r2),
      All-update_where IsSound (metrics_of p1) _ _ (λ r s. after_failure-IsSound now r s) ready,
      All-update_where IsSound (metrics_of p1) _ _ (λ r s. after_feedback-IsSound now r s score)
          ready,
      All-update_where IsSound (metrics_of p1) _ _
          (λ r s. after_check-IsSound now r s was_available) ready,
    )
