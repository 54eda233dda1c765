-- ===== src/Session/Escrow.antt =====
-- src/session/session-escrow.ts: the whole budget is held in escrow, and what a session spends is
-- tracked in memory until the escrow is settled or released.
use agentbnb.Prelude.{
  ℕ, ◌+◌, Bool, String, Option, none, some, get, put, delete, ℤ, pos, minus, leb_ℤ, leb,
  if◌then◌else◌,
}
use agentbnb.Credit.Db.{Db, Action, Result, ok, err}
use agentbnb.Credit.Escrow.{hold_escrow, settle_escrow, release_escrow}
use agentbnb.Session.Types.{
  Tracking, World, Task, Outcome, done, thrown, no_tracking, credit_failed, modify, pure, ◌>>=◌,
  ◌>>◌,
}

abbrev pub lift_result : {A : Type 0} → World → Result A × Db → Outcome A × World
lift_result w (ok a, db) = (done a, record w { credit_db = db })
lift_result w (err e, db) = (thrown (credit_failed e), record w { credit_db = db })

-- A call into the credit system.
abbrev pub on_credit : {A : Type 0} → Action A → Task A
on_credit m w = lift_result w (m w.credit_db)

unfoldable pub hold_budget : String → ℕ → String → String → ℕ → Task String
hold_budget owner budget card_id escrow_id now = do
  id ← on_credit (hold_escrow owner budget card_id escrow_id now)
  modify λ w. record w { tracking = put id (record { budget = budget; spent = 0 }) w.tracking }
  pure id

unfoldable pub deduct : String → ℕ → Task Tracking
deduct escrow_id amount w = elim (get escrow_id w.tracking) [
  | none ↦ (thrown (no_tracking escrow_id), w)
  | some t ↦
      (let u = record t { spent = t.spent + amount } in
        (done u, record w { tracking = put escrow_id u w.tracking }))
]

-- `remaining` of the result of a deduction.
abbrev pub remaining_of : Tracking → ℤ
remaining_of t = minus t.budget t.spent

abbrev pub forget : String → Task (Unit {0})
forget escrow_id = modify λ w. record w { tracking = delete escrow_id w.tracking }

-- The branches of `settle` on what is tracked.
unfoldable pub settle_tracked : String → String → ℕ → Option Tracking → Task (Unit {0})
settle_tracked escrow_id owner now none = on_credit (settle_escrow escrow_id owner now)
settle_tracked escrow_id owner now (some t) =
    (if leb t.spent 0
      then on_credit (release_escrow escrow_id now)
      else on_credit (settle_escrow escrow_id owner now))
    >> forget escrow_id

unfoldable pub settle : String → String → ℕ → Task (Unit {0})
unfolding settle_tracked
settle escrow_id owner now w = settle_tracked escrow_id owner now (get escrow_id w.tracking) w

unfoldable pub refund : String → ℕ → Task (Unit {0})
refund escrow_id now = on_credit (release_escrow escrow_id now) >> forget escrow_id

abbrev budget_left : Option Tracking → ℤ
budget_left none = pos 0
budget_left (some t) = minus t.budget t.spent

abbrev spent_of : Option Tracking → ℕ
spent_of none = 0
spent_of (some t) = t.spent

unfoldable pub get_remaining_budget : String → World → ℤ
get_remaining_budget escrow_id w = budget_left (get escrow_id w.tracking)

unfoldable pub get_spent : String → World → ℕ
get_spent escrow_id w = spent_of (get escrow_id w.tracking)

unfoldable pub is_budget_exhausted : String → World → Bool
unfolding get_remaining_budget
is_budget_exhausted escrow_id w = leb_ℤ (get_remaining_budget escrow_id w) (pos 0)
