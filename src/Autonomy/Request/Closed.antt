-- ===== src/Autonomy/Request/Closed.antt =====
-- An escrow that an automatic request opens is closed when the request returns
-- (`requestWithAutonomy` of src/autonomy/auto-request.ts).
use agentbnb.Prelude.{
  ℕ, ◌<◌, ◌≡◌, ◌≢◌, refl, sym, ap, ◌∙◌, inl, inr, true, false, String, none, some, Option-cases,
  ltb, ◌&&◌, if◌then◌else◌, subst,
}
use agentbnb.Credit.Types.{EscrowStatus, held, settled, released, lifecycle}
use agentbnb.Credit.Db.{Db, ok}
use agentbnb.Credit.Supply.{HasKeys, terms}
use agentbnb.Credit.Owner.Canonical.{IsCanonical}
use agentbnb.Credit.Escrow.{hold_escrow}
use agentbnb.Credit.Escrow.Opened.{Holds}
use agentbnb.Credit.Escrow.Ended.{release_closes, settle_closes}
use agentbnb.Credit.Budget.{can_spend}
use agentbnb.Credit.Budget.Reserve.{permitted_hold, can_spend_runs}
use agentbnb.Autonomy.Tiers.{AutonomyTier, tier1, tier2, tier3}
use agentbnb.Autonomy.World.{World, Outcome, returned, attempt, ◌>>=◌}
use agentbnb.Autonomy.Request.{
  CapabilityNeed, ResolvedTarget, Outside, AutoRequestor, AutoRequestResult, RequestStatus, success,
  budget_blocked, tier_blocked, no_peer, failed, Reply, value, failure, request_resolved,
  execute_held, local_path, within_budget, paid_relay, finish, recover, request_params, tier, await,
}

-- How the escrow of a request with this status ends.
unfoldable pub end_of : RequestStatus → EscrowStatus
end_of success = settled
end_of budget_blocked = released
end_of tier_blocked = released
end_of no_peer = released
end_of failed = released

-- The request has returned, and its escrow is over as its status says.
pub record IsOver (id : String) (amount : ℕ) (q : Outcome AutoRequestResult × World) : Type 0 where
  pub answer : AutoRequestResult
  pub returns : q.0 ≡ returned answer
  pub keys : HasKeys q.1.credit_db
  pub ended : terms id q.1.credit_db ≡ some (amount, lifecycle (end_of answer.status))

module _ (o : Outside) (self : AutoRequestor) (need : CapabilityNeed) (t : ResolvedTarget)
    (id : String) (now later : ℕ) (direct : t.via_relay ≡ false) where
  module _ (w : World) (keys : HasKeys w.credit_db) (peer : IsCanonical t.owner w.credit_db.agents)
      (open_terms : terms id w.credit_db ≡ some (t.credits_per_call, lifecycle held)) where
    abbrev caught : Outcome AutoRequestResult × World
    caught = attempt (execute_held o self need t id later) (recover o self need t id later) w

    no_peer-IsOver : o.find_peer t.owner ≡ none → IsOver id t.credits_per_call caught
    unfolding execute_held end_of
    no_peer-IsOver e =
        let done = release_closes id t.credits_per_call later w.credit_db keys open_terms in
        rw (direct, e, execute_held, done.runs)
          (record { answer = _; returns = refl; keys = done.holds.0; ended = done.holds.1 })

    answered-IsOver :
        (r : Reply)
        → IsOver id t.credits_per_call
            (attempt (await r >>= finish o self need t id later) (recover o self need t id later) w)
    unfolding end_of
    answered-IsOver (value v) =
        let done =
          settle_closes id t.credits_per_call later w.credit_db keys open_terms t.owner peer in
        rw done.runs
          (record { answer = _; returns = refl; keys = done.holds.0; ended = done.holds.1 })
    answered-IsOver (failure m) =
        let done = release_closes id t.credits_per_call later w.credit_db keys open_terms in
        rw done.runs
          (record { answer = _; returns = refl; keys = done.holds.0; ended = done.holds.1 })

    caught-IsOver : IsOver id t.credits_per_call caught
    unfolding execute_held
    caught-IsOver = elim (Option-cases (o.find_peer t.owner)) [
      | inl e ↦ no_peer-IsOver e
      | inr (p, e) ↦
          rw (direct, e, execute_held)
            (answered-IsOver (o.request_capability p t.card_id (request_params o self need t)))
    ]

  -- What follows the hold.
  held-IsOver :
      (w : World) (after : Db)
      → IsCanonical t.owner w.credit_db.agents
      → hold_escrow self.owner t.credits_per_call t.card_id id now w.credit_db ≡ (ok id, after)
      → Holds id self.owner t.credits_per_call now w.credit_db after
      → IsOver id t.credits_per_call (local_path o self need t id now later w)
  unfolding local_path
  held-IsOver w after peer runs holds =
      rw (runs, local_path)
        (caught-IsOver (record w { credit_db = after }) holds.keys
          (subst (IsCanonical t.owner) (sym holds.same_agents) peer) holds.has_terms)

  takes_local_path :
      (w : World)
      → within_budget o self need t id now later true w ≡ local_path o self need t id now later w
  unfolding within_budget
  takes_local_path w =
      ap
        (λ b.
          (if b && ltb 0 t.credits_per_call
              then paid_relay o self need t now later
              else local_path o self need t id now later)
            w)
        direct

  tier-IsOver :
      (w : World) (pending_id : String) (level : AutonomyTier)
      → tier o self need t ≡ level
      → level ≢ tier3
      → can_spend self.budget_owner self.reserve t.credits_per_call now w.credit_db
        ≡ (ok true, w.credit_db)
      → IsOver id t.credits_per_call (local_path o self need t id now later w)
      → IsOver id t.credits_per_call (request_resolved o self need t id pending_id now later w)
  unfolding request_resolved
  tier-IsOver w pending_id tier1 e other permitted over =
      rw (e, request_resolved, permitted, takes_local_path w) over
  tier-IsOver w pending_id tier2 e other permitted over =
      rw (e, request_resolved, permitted, takes_local_path w) over
  tier-IsOver w pending_id tier3 e other permitted over = absurd (other refl)

-- Let the target be reached directly, cost something below one of the owner's two limits, and be within the budget
-- that the manager of the same owner permits, with unique keys, canonical identities and a fresh escrow
-- id. Then the request returns, whatever the peer answers, and its escrow of the whole cost is
-- over: it is settled if the request succeeded, and released otherwise.
pub request_resolved_closes :
    (o : Outside) (self : AutoRequestor) (need : CapabilityNeed) (t : ResolvedTarget)
    (escrow_id pending_id : String) (now later : ℕ) (w : World)
    → t.via_relay ≡ false
    → 0 < t.credits_per_call
    → tier o self need t ≢ tier3
    → self.budget_owner ≡ self.owner
    → HasKeys w.credit_db
    → IsCanonical self.owner w.credit_db.agents
    → IsCanonical t.owner w.credit_db.agents
    → terms escrow_id w.credit_db ≡ none
    → (can_spend self.owner self.reserve t.credits_per_call now w.credit_db).0 ≡ ok true
    → IsOver escrow_id t.credits_per_call
        (request_resolved o self need t escrow_id pending_id now later w)
request_resolved_closes o self need t escrow_id pending_id now later w direct positive below same
      keys owner peer fresh allowed =
    let done =
      permitted_hold self.owner self.reserve t.credits_per_call t.card_id escrow_id now w.credit_db
        keys owner fresh positive allowed in
    let runs =
      can_spend_runs self.owner now w.credit_db owner self.reserve t.credits_per_call positive in
    tier-IsOver o self need t escrow_id now later direct w pending_id _ refl below
      (ap (λ b. can_spend b self.reserve t.credits_per_call now w.credit_db) same
        ∙ runs
        ∙ ap (λ r. (r, w.credit_db)) (sym (ap (λ q. q.0) runs) ∙ allowed))
      (held-IsOver o self need t escrow_id now later direct w done.after peer
        (done.runs ∙ ap (λ a. (ok a, done.after)) done.holds.0) done.holds.1)
