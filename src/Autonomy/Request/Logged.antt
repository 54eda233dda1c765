-- ===== src/Autonomy/Request/Logged.antt =====
-- A request to a resolved target leaves one audit event (`requestWithAutonomy` of
-- src/autonomy/auto-request.ts from step 5 on), whatever fails on the way.
use agentbnb.Prelude.{
  ℕ, suc, ◌≡◌, refl, sym, ap, ◌∙◌, ◌⊎◌, inl, inr, true, false, Bool, String, List, [], ◌∷◌, Option,
  none, some, length, length-append, arith, Bool-cases, Option-cases, ◌&&◌, ltb,
}
use agentbnb.Credit.Types.{CreditError}
use agentbnb.Credit.Db.{Db, Result, ok, err, commit}
use agentbnb.Credit.Escrow.{hold_escrow, settle_escrow, release_escrow}
use agentbnb.Autonomy.Tiers.{
  AutonomyEvent, AutonomyTier, tier1, tier2, tier3, share_event, request_event, RequestLogRow,
  insert_audit_event,
}
use agentbnb.Autonomy.World.{
  Fault, World, Outcome, returned, raised, attempt, catch_with, continue_with, pure, lift_result,
  ◌>>=◌,
}
use agentbnb.Autonomy.Request.{
  CapabilityNeed, ResolvedTarget, Outside, AutoRequestor, AutoRequestResult, Reply, value, failure,
  present, request_resolved, paid_relay, execute_held, local_path, within_budget, ask_owner, tier,
  give_up, finish, recover, log_success, log_failure, succeeded, execution_failure, await, Reason,
  mint_relay_token, request_params, no_registry_url, no_signing_identity, no_gateway_config,
}

pub length-insert_audit_event :
    (e : AutonomyEvent) (now : ℕ) (rows : List RequestLogRow)
    → length (insert_audit_event e now rows) ≡ suc (length rows)
unfolding insert_audit_event
length-insert_audit_event (share_event a s t) now rows = omega (arith, length-append rows (_ ∷ []))
length-insert_audit_event (request_event a c s t n) now rows =
    omega (arith, length-append rows (_ ∷ []))

commit_failed :
    {A : Type 0} (db : Db) (q : Result A × Db) (e : CreditError)
    → (commit db q).0 ≡ err e
    → commit db q ≡ (err e, db)
commit_failed db (ok a, d) e h = cc
commit_failed db (err f, d) e h = ap (λ x. (x, db)) h

-- A release that fails changes nothing, so that it fails again.
release_failed :
    (id : String) (now : ℕ) (db d : Db) (e : CreditError)
    → release_escrow id now db ≡ (err e, d)
    → d ≡ db
unfolding release_escrow
release_failed id now db d e h = ap (λ q. q.1) (sym h ∙ commit_failed db _ e (ap (λ q. q.0) h))

-- One more event, if the flow returns.
abbrev Logged : {A : Type 0} → List RequestLogRow → Outcome A × World → Type 0
Logged rows (returned a, w) = length w.request_log ≡ suc (length rows)
Logged rows (raised e, w) = Unit

-- The flow of a `try`: it may also throw, either before any event or because of a release that fails.
abbrev Tried : {A : Type 0} → String → ℕ → List RequestLogRow → Outcome A × World → Type 0
Tried id later rows (returned a, w) = length w.request_log ≡ suc (length rows)
Tried id later rows (raised e, w) =
    (w.request_log ≡ rows)
    ⊎ ((f : CreditError) × (release_escrow id later w.credit_db ≡ (err f, w.credit_db)))

Logged-length :
    {A : Type 0} (rows : List RequestLogRow) (q : Outcome A × World) (a : A)
    → Logged rows q
    → q.0 ≡ returned a
    → length q.1.request_log ≡ suc (length rows)
Logged-length rows (returned b, w) a h e = h
Logged-length rows (raised f, w) a h e = cc

module _ (o : Outside) (self : AutoRequestor) (need : CapabilityNeed) (t : ResolvedTarget) where
  give_up-Tried :
      (id : String) (reason : Reason) (peer : Option String) (later : ℕ) (w : World)
      (q : Result (Unit {0}) × Db)
      → release_escrow id later w.credit_db ≡ q
      → Tried id later w.request_log (give_up o self need t id reason peer later w)
  give_up-Tried id reason peer later w (ok tt, d) e =
      rw e (length-insert_audit_event _ later w.request_log)
  give_up-Tried id reason peer later w (err f, d) e = rw e (
      inr (
        f,
        rw (release_failed id later w.credit_db d f e)
            (e ∙ ap (λ x. (err f, x)) (release_failed id later w.credit_db d f e)),
      ))

  finish-Tried :
      (id : String) (later : ℕ) (v : String) (w : World) (q : Result (Unit {0}) × Db)
      → settle_escrow id t.owner later w.credit_db ≡ q
      → Tried id later w.request_log (finish o self need t id later v w)
  finish-Tried id later v w (ok tt, d) e = rw e (length-insert_audit_event _ later w.request_log)
  finish-Tried id later v w (err f, d) e = rw e (inl refl)

  answered-Tried :
      (id : String) (later : ℕ) (r : Reply) (w : World)
      → Tried id later w.request_log ((await r >>= finish o self need t id later) w)
  answered-Tried id later (value v) w = finish-Tried id later v w _ refl
  answered-Tried id later (failure m) w = inl refl

  execute_held-Tried :
      (id : String) (later : ℕ) (w : World)
      → Tried id later w.request_log (execute_held o self need t id later w)
  unfolding execute_held
  execute_held-Tried id later w = elim (Bool-cases t.via_relay) [
    | inl relayed ↦ elim (Option-cases (present self.registry_url)) [
      | inl e ↦ rw (relayed, e, execute_held) (give_up-Tried id no_registry_url none later w _ refl)
      | inr (url, e) ↦ elim (Option-cases (present (mint_relay_token o self need t))) [
        | inl f ↦
            rw (relayed, e, f, execute_held)
              (give_up-Tried id no_signing_identity (some t.owner) later w _ refl)
        | inr (token, f) ↦
            rw (relayed, e, f, execute_held)
              (answered-Tried id later
                (o.request_via_temporary_relay url token t.owner t.card_id t.skill_id
                  (request_params o self need t))
                w)
      ]
    ]
    | inr direct ↦ elim (Option-cases (o.find_peer t.owner)) [
      | inl e ↦
          rw (direct, e, execute_held) (give_up-Tried id no_gateway_config none later w _ refl)
      | inr (p, e) ↦
          rw (direct, e, execute_held)
            (answered-Tried id later
              (o.request_capability p t.card_id (request_params o self need t)) w)
    ]
  ]

  recovered-Logged :
      (id : String) (later : ℕ) (x : Fault) (rows : List RequestLogRow) (w : World)
      (q : Result (Unit {0}) × Db)
      → release_escrow id later w.credit_db ≡ q
      → Tried {A = AutoRequestResult} id later rows (raised x, w)
      → Logged rows (recover o self need t id later x w)
  recovered-Logged id later x rows w (ok tt, d) e (inl same) =
      rw e (length-insert_audit_event _ _ w.request_log ∙ ap (λ l. suc (length l)) same)
  recovered-Logged id later x rows w (ok tt, d) e (inr (f, h)) = absurd (cc)
  recovered-Logged id later x rows w (err f, d) e h = rw e tt

  attempt-Logged :
      (id : String) (later : ℕ) (rows : List RequestLogRow) (q : Outcome AutoRequestResult × World)
      → Tried id later rows q
      → Logged rows (catch_with (recover o self need t id later) q)
  attempt-Logged id later rows (returned a, w) h = h
  attempt-Logged id later rows (raised e, w) h = recovered-Logged id later e rows w _ refl h

  local_path-Logged :
      (id : String) (now later : ℕ) (w : World) (q : Result String × Db)
      → hold_escrow self.owner t.credits_per_call t.card_id id now w.credit_db ≡ q
      → Logged w.request_log (local_path o self need t id now later w)
  unfolding local_path
  local_path-Logged id now later w (err f, d) e = rw (e, local_path) tt
  local_path-Logged id now later w (ok a, d) e =
      rw (e, local_path)
        (attempt-Logged a later w.request_log _
          (execute_held-Tried a later (record w { credit_db = d })))

  relayed-Logged :
      (now later : ℕ) (r : Reply) (w : World)
      → Logged w.request_log (
          attempt
            (await r >>= λ v.
              log_success o self need t later >>= λ _. pure (succeeded o self need t v none))
            (λ e. log_failure o self need t later >>= λ _. pure (execution_failure o self need t e))
            w)
  relayed-Logged now later (value v) w = length-insert_audit_event _ later w.request_log
  relayed-Logged now later (failure m) w = length-insert_audit_event _ later w.request_log

  paid_relay-Logged :
      (now later : ℕ) (w : World) → Logged w.request_log (paid_relay o self need t now later w)
  unfolding paid_relay
  paid_relay-Logged now later w = elim (Option-cases (present self.registry_url)) [
    | inl e ↦ rw (e, paid_relay) (length-insert_audit_event _ now w.request_log)
    | inr (url, e) ↦ elim (Option-cases (present (mint_relay_token o self need t))) [
      | inl f ↦ rw (e, f, paid_relay) (length-insert_audit_event _ now w.request_log)
      | inr (token, f) ↦
          rw (e, f, paid_relay)
            (relayed-Logged now later
              (o.request_via_temporary_relay url token t.owner t.card_id t.skill_id
                (request_params o self need t))
              w)
    ]
  ]

  within_budget-Logged :
      (id : String) (now later : ℕ) (can : Bool) (w : World)
      → Logged w.request_log (within_budget o self need t id now later can w)
  unfolding within_budget
  within_budget-Logged id now later false w = length-insert_audit_event _ now w.request_log
  within_budget-Logged id now later true w =
      elim (Bool-cases (t.via_relay && ltb 0 t.credits_per_call)) [
        | inl e ↦ rw (e, within_budget) (paid_relay-Logged now later w)
        | inr e ↦ rw (e, within_budget) (local_path-Logged id now later w _ refl)
      ]

  spend-Logged :
      (id : String) (now later : ℕ) (w : World) (q : Result Bool × Db)
      → Logged w.request_log
          (continue_with (within_budget o self need t id now later) (lift_result w q))
  spend-Logged id now later w (ok can, d) =
      within_budget-Logged id now later can (record w { credit_db = d })
  spend-Logged id now later w (err f, d) = tt

  tier-Logged :
      (id pending_id : String) (now later : ℕ) (w : World) (level : AutonomyTier)
      → tier o self need t ≡ level
      → Logged w.request_log (request_resolved o self need t id pending_id now later w)
  unfolding request_resolved ask_owner
  tier-Logged id pending_id now later w tier1 e =
      rw (e, request_resolved) (spend-Logged id now later w _)
  tier-Logged id pending_id now later w tier2 e =
      rw (e, request_resolved) (spend-Logged id now later w _)
  tier-Logged id pending_id now later w tier3 e =
      rw (e, request_resolved) (length-insert_audit_event _ now w.request_log)

  -- A request to a resolved target that returns, with whatever result, has written exactly one row of the
  -- request log.
  pub request_resolved_logs_once :
      (escrow_id pending_id : String) (now later : ℕ) (w : World) (r : AutoRequestResult)
      → (request_resolved o self need t escrow_id pending_id now later w).0 ≡ returned r
      → length (request_resolved o self need t escrow_id pending_id now later w).1.request_log
        ≡ suc (length w.request_log)
  request_resolved_logs_once escrow_id pending_id now later w r h =
      Logged-length w.request_log _ r (tier-Logged escrow_id pending_id now later w _ refl) h
