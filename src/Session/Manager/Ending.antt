-- ===== src/Session/Manager/Ending.antt =====
-- Ending a session keeps the accounts, whether the credit system succeeds or fails.
use agentbnb.Prelude.{
  ℕ, ◌≡◌, refl, sym, ◌⊎◌, subst, true, Bool-cases, inl, inr, String, some, get, put, delete,
  get-delete, put-put, ltb, leb, arith,
}
use agentbnb.Credit.Db.{Db, Result, ok, err}
use agentbnb.Credit.Escrow.{settle_escrow, release_escrow}
use agentbnb.Session.Types.{
  Session, SessionEndReason, settled, closed, SessionError, Tracking, World, Outcome, done, thrown,
  is_live, credit_failed, continue_with,
}
use agentbnb.Session.Escrow.{lift_result, forget, settle, settle_tracked, refund}
use agentbnb.Session.Manager.{
  store, clear_timers, settle_credits, ending, finish, end_session_internal, untrack_agent_session,
}
use agentbnb.Session.Manager.Accounts.{account_of, Accounted, store-Accounted}

abbrev pub Accounts : World → Type 0
Accounts w = Accounted w.sessions w.tracking

-- The credit system failed and nothing changed in memory, or it succeeded and the escrow is not
-- tracked any more.
abbrev Pays : String → World → Outcome (Unit {0}) × World → Type 0
Pays escrow_id w r =
    (r.1.sessions ≡ w.sessions)
    × (((e : SessionError) × (r.0 ≡ thrown e) × (r.1.tracking ≡ w.tracking))
        ⊎ ((r.0 ≡ done tt) × (r.1.tracking ≡ delete escrow_id w.tracking)))

pay_and_forget :
    (escrow_id : String) (w : World) (r : Result (Unit {0}) × Db)
    → Pays escrow_id w (continue_with (λ _. forget escrow_id) (lift_result w r))
pay_and_forget escrow_id w (ok tt, db) = (refl, inr (refl, refl))
pay_and_forget escrow_id w (err e, db) = (refl, inl (credit_failed e, refl, refl))

settle_tracked-Pays :
    (escrow_id owner : String) (now : ℕ) (t : Tracking) (w : World)
    → Pays escrow_id w (settle_tracked escrow_id owner now (some t) w)
unfolding settle_tracked
settle_tracked-Pays escrow_id owner now t w = elim (Bool-cases (leb t.spent 0)) [
  | inl e ↦ rw e (pay_and_forget escrow_id w (release_escrow escrow_id now w.credit_db))
  | inr e ↦ rw e (pay_and_forget escrow_id w (settle_escrow escrow_id owner now w.credit_db))
]

settle_credits-Pays :
    (s : Session) (now : ℕ) (w : World)
    → get s.escrow_id w.tracking ≡ some (account_of s)
    → Pays s.escrow_id w (settle_credits s now w)
unfolding settle_credits settle refund
settle_credits-Pays s now w h = elim (Bool-cases (ltb 0 s.spent)) [
  | inl e ↦ rw e (
      subst (λ o. Pays s.escrow_id w (settle_tracked s.escrow_id s.provider_id now o w)) (sym h)
        (settle_tracked-Pays s.escrow_id s.provider_id now (account_of s) w))
  | inr e ↦ rw e (pay_and_forget s.escrow_id w (release_escrow s.escrow_id now w.credit_db))
]

module _ (s : Session) (reason : SessionEndReason) (now : ℕ) (w : World) (before : Accounts w)
    (stored : get s.id w.sessions ≡ some s) (live : is_live s.status ≡ true) where
  alone :
      (j : String) (t : Session)
      → get j w.sessions ≡ some t
      → is_live t.status ≡ true
      → t.escrow_id ≡ s.escrow_id
      → j ≡ s.id
  alone j t h l e = before.apart j s.id t s h stored l live e

  ending-Accounted : Accounted (put s.id (ending s reason) w.sessions) w.tracking
  ending-Accounted =
      store-Accounted w.sessions w.tracking w.tracking (ending s reason) before alone (λ e h. refl)
        (λ l. before.tracked s.id s stored live)

  ended-Accounted :
      Accounted
        (put s.id
          (record (ending s reason) { status = closed })
          (put s.id
            (record (ending s reason) { status = settled })
            (put s.id (ending s reason) w.sessions)))
        (delete s.escrow_id w.tracking)
  unfolding is_live
  ended-Accounted =
      rw (put-put, put-put)
        (store-Accounted w.sessions w.tracking (delete s.escrow_id w.tracking)
          (record (ending s reason) { status = closed }) before alone
          (λ e h. get-delete e s.escrow_id w.tracking h) (λ l. ground (arith, l)))

  abbrev closing_world : World
  closing_world = (clear_timers s.id (store (ending s reason) w).1).1

  after_payment :
      (r : Outcome (Unit {0}) × World)
      → r.1.sessions ≡ put s.id (ending s reason) w.sessions
      → (((e : SessionError) × (r.0 ≡ thrown e) × (r.1.tracking ≡ w.tracking))
          ⊎ ((r.0 ≡ done tt) × (r.1.tracking ≡ delete s.escrow_id w.tracking)))
      → Accounts (continue_with (λ _. finish (ending s reason)) r).1
  unfolding finish store untrack_agent_session
  after_payment (thrown e, w2) p (inl (e', q, t)) = rw (p, t) ending-Accounted
  after_payment (thrown e, w2) p (inr (q, t)) = absurd (ground (arith, q))
  after_payment (done tt, w2) p (inl (e', q, t)) = absurd (ground (arith, q))
  after_payment (done tt, w2) p (inr (q, t)) = rw (p, t) ended-Accounted

  pub end_session_internal-Accounts : Accounts (end_session_internal s reason now w).1
  unfolding end_session_internal store clear_timers
  end_session_internal-Accounts =
      let paid = settle_credits-Pays s now closing_world (before.tracked s.id s stored live) in
      after_payment (settle_credits s now closing_world) paid.0 paid.1
