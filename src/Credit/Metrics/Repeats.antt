-- ===== src/Credit/Metrics/Repeats.antt =====
-- What `recordSuccessfulHire` (src/credit/reliability-metrics.ts) adds to the counters of the provider.
use agentbnb.Prelude.{
  ℕ, ◌≡◌, refl, true, String, List, none, some, arith, inl, inr, Option-cases, str_eq_iff,
}
use agentbnb.Credit.Types.{settlement, ℤ}
use agentbnb.Credit.Table.{
  select_first, update_where, count-insert, select_first-update_where_self, select_first-insert_new,
  insert_or_ignore,
}
use agentbnb.Credit.Db.{Db, MetricsRow, metrics_of}
use agentbnb.Credit.Owner.Canonical.{IsCanonical, canonicalize_credit_owner-steady}
use agentbnb.Credit.Ledger.{log_tx}
use agentbnb.Credit.Metrics.{
  new_metrics, ensure_row, is_hire, has_escrow, repeat_increment, after_hire,
  record_successful_hire,
}

-- The row of an owner, an empty one if there is none.
abbrev pub row_of : String → ℕ → List MetricsRow → MetricsRow
row_of o now rows = elim (select_first (metrics_of o) rows) [
  | none ↦ new_metrics o now
  | some r ↦ r
]

ensured :
    (o : String) (now : ℕ) (rows : List MetricsRow)
    → select_first (metrics_of o) (insert_or_ignore (metrics_of o) (new_metrics o now) rows)
      ≡ some (row_of o now rows)
ensured o now rows = elim (Option-cases (select_first (metrics_of o) rows)) [
  | inl e ↦
      ground
        (arith, str_eq_iff o o, select_first-insert_new (metrics_of o) (new_metrics o now) rows e)
  | inr (r, e) ↦ ground arith
]

module _ (p c : String) (now : ℕ) (db : Db) (provider : IsCanonical p db.agents)
    (consumer : IsCanonical c db.agents) where
  record_successful_hire_runs :
      (record_successful_hire p c now db).1.metrics
      ≡ update_where
          (metrics_of p)
          (after_hire (repeat_increment p c db) now)
          (insert_or_ignore (metrics_of p) (new_metrics p now) db.metrics)
  unfolding record_successful_hire ensure_row repeat_increment
  record_successful_hire_runs =
      let same_provider = canonicalize_credit_owner-steady p now db provider in
      let same_consumer = canonicalize_credit_owner-steady c now db consumer in
      rw (same_provider, same_consumer, same_provider, record_successful_hire, ensure_row)

  -- For canonical owners, the hire is counted in the provider's row, which is made if it was missing: one more
  -- hire and streak, the longest streak kept up, and one more repeat exactly if the log has a
  -- settlement to the provider for an escrow of the consumer already.
  pub record_successful_hire_counts :
      select_first (metrics_of p) (record_successful_hire p c now db).1.metrics
      ≡ some (after_hire (repeat_increment p c db) now (row_of p now db.metrics))
  unfolding after_hire
  record_successful_hire_counts = rw record_successful_hire_runs (
      select_first-update_where_self (metrics_of p) (after_hire (repeat_increment p c db) now) _
        (row_of p now db.metrics) (λ r. refl) (ensured p now db.metrics))

-- Once a settlement to the provider for an escrow of the consumer is in the log, the next count
-- of the repeats of this pair is one.
pub repeat_increment-log_tx :
    (p c id : String) (a : ℤ) (now : ℕ) (db : Db)
    → has_escrow id c db.escrows ≡ true
    → repeat_increment p c (log_tx p a settlement (some id) now db).1 ≡ 1
unfolding repeat_increment
repeat_increment-log_tx p c id a now db h = ground (
  arith,
  str_eq_iff p p,
  count-insert (is_hire p c db.escrows)
      (record {
        owner = p;
        amount = a;
        reason = settlement;
        reference_id = some id;
        created_at = now;
      })
      db.transactions,
)
