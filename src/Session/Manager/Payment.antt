-- ===== src/Session/Manager/Payment.antt =====
-- What the end of a session does to the credits, and to the session.
use agentbnb.Prelude.{
  ℕ, ◌≡◌, refl, subst, true, false, Bool-cases, inl, inr, String, some, get, get-put_own, ltb, leb,
  if◌then◌else◌, arith,
}
use agentbnb.Credit.Db.{Db, Result, ok, err}
use agentbnb.Credit.Escrow.{settle_escrow, release_escrow}
use agentbnb.Session.Types.{
  Session, SessionStatus, SessionEndReason, closing, closed, World, is_live, continue_with,
}
use agentbnb.Session.Escrow.{lift_result, forget, settle, settle_tracked, refund}
use agentbnb.Session.Manager.{
  store, clear_timers, settle_credits, ending, finish, end_session_internal, end_session,
  end_if_live, untrack_agent_session,
}
use agentbnb.Session.Manager.Accounts.{account_of}
use agentbnb.Session.Manager.Ending.{Accounts}

-- What the credit system does when the session ends.
abbrev pub payment : Session → ℕ → Db → Result (Unit {0}) × Db
payment s now db =
    if ltb 0 s.spent
    then settle_escrow s.escrow_id s.provider_id now db
    else release_escrow s.escrow_id now db

abbrev pub status_after : Result (Unit {0}) → SessionStatus
status_after (ok tt) = closed
status_after (err e) = closing

abbrev pub ended : Session → SessionEndReason → Result (Unit {0}) → Session
ended s reason r = record s { status = status_after r; end_reason = some reason }

-- The credits are those after the payment, and the session is stored as it ended.
abbrev Pays : Session → SessionEndReason → Result (Unit {0}) × Db → World → Type 0
Pays s reason r w = (w.credit_db ≡ r.1) × (get s.id w.sessions ≡ some (ended s reason r.0))

module _ (s : Session) (reason : SessionEndReason) (now : ℕ) (w : World) where
  abbrev closing_world : World
  closing_world = (clear_timers s.id (store (ending s reason) w).1).1

  finish-Pays :
      (r : Result (Unit {0}) × Db)
      → Pays s reason r
          (continue_with
            (λ _. finish (ending s reason))
            (continue_with (λ _. forget s.escrow_id) (lift_result closing_world r))).1
  unfolding finish store untrack_agent_session clear_timers
  finish-Pays (ok tt, db) = (refl, get-put_own s.id _ _)
  finish-Pays (err e, db) = (refl, get-put_own s.id _ _)

  internal-Pays :
      get s.escrow_id w.tracking ≡ some (account_of s)
      → Pays s reason (payment s now w.credit_db) (end_session_internal s reason now w).1
  unfolding end_session_internal settle_credits settle refund store clear_timers settle_tracked
  internal-Pays h = elim (Bool-cases (ltb 0 s.spent)) [
    | inl e ↦
        let spent : leb s.spent 0 ≡ false = ground (arith, e) in
        rw (e, h, spent) (finish-Pays (settle_escrow s.escrow_id s.provider_id now w.credit_db))
    | inr e ↦ rw e (finish-Pays (release_escrow s.escrow_id now w.credit_db))
  ]

-- Where the accounts hold, ending a live session settles its whole escrow to the provider if anything
-- was spent, and releases it to the requester otherwise; the credit database changes by nothing
-- else. The session is closed if that succeeds, and still closing if it fails.
pub end_session_pays :
    (id : String) (s : Session) (reason : SessionEndReason) (now : ℕ) (w : World)
    → Accounts w
    → get id w.sessions ≡ some s
    → is_live s.status ≡ true
    → (let (r, db) = payment s now w.credit_db in
        let after = (end_session id reason now w).1 in
        (after.credit_db ≡ db) × (get id after.sessions ≡ some (ended s reason r)))
unfolding end_session end_if_live
end_session_pays id s reason now w before found live =
    let pays = internal-Pays s reason now w (before.tracked id s found live) in
    rw (found, live)
      (
        pays.0,
        subst
            (λ k.
              get k (end_session_internal s reason now w).1.sessions
              ≡ some (ended s reason (payment s now w.credit_db).0))
            (before.keyed id s found) pays.1,
      )
