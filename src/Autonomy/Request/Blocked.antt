-- ===== src/Autonomy/Request/Blocked.antt =====
-- Requests that no limit of the owner covers (`requestWithAutonomy` of src/autonomy/auto-request.ts).
use agentbnb.Prelude.{
  ℕ, ◌≤◌, ◌≡◌, refl, ap, ◌∙◌, String, List, [], ◌∷◌, ◌++◌, some, none, map, All, arith,
}
use agentbnb.Autonomy.Tiers.{tier3, AutonomyConfig, get_autonomy_tier}
use agentbnb.Autonomy.Pending.{PendingRequest, pending, create_pending_request}
use agentbnb.Autonomy.World.{World}
use agentbnb.Autonomy.Request.{
  CapabilityNeed, ResolvedTarget, Outside, AutoRequestor, request_resolved, ask_owner, map_option,
}

-- A need with its resolved target, the ids that are drawn, and the time.
pub record Call : Type 0 where
  pub need : CapabilityNeed
  pub target : ResolvedTarget
  pub escrow_id : String
  pub pending_id : String
  pub now : ℕ
  pub later : ℕ

module _ (o : Outside) (self : AutoRequestor) where
  unfoldable pub run_requests : List Call → World → World
  run_requests [] w = w
  run_requests (c ∷ cs) w =
      run_requests cs
        (request_resolved o self c.need c.target c.escrow_id c.pending_id c.now c.later w).1

  -- What the owner finds for a call.
  abbrev pub asked : Call → PendingRequest
  asked c = record {
    id = c.pending_id;
    skill_query = c.need.query;
    max_cost_credits = c.need.max_cost_credits;
    selected_peer = some c.target.owner;
    selected_card_id = some c.target.card_id;
    selected_skill_id = c.target.skill_id;
    credits = c.target.credits_per_call;
    status = pending;
    params = map_option o.stringify c.need.params;
    created_at = c.now;
    resolved_at = none;
  }

  -- A call that reaches neither limit.
  abbrev pub IsBeyond : Call → Type 0
  IsBeyond c =
      (self.autonomy_config.tier1_max_credits ≤ c.target.credits_per_call)
      × (self.autonomy_config.tier2_max_credits ≤ c.target.credits_per_call)

  beyond-tier3 :
      (cost : ℕ) (config : AutonomyConfig)
      → config.tier1_max_credits ≤ cost
      → config.tier2_max_credits ≤ cost
      → get_autonomy_tier cost config ≡ tier3
  unfolding get_autonomy_tier
  beyond-tier3 cost config h k = ground (arith, h, k)

  append_insert :
      (xs ys : List PendingRequest) (x : PendingRequest) → (xs ++ x ∷ []) ++ ys ≡ xs ++ x ∷ ys
  append_insert [] ys x = refl
  append_insert (y ∷ xs) ys x = ap (λ l. y ∷ l) (append_insert xs ys x)

  append_nothing : (xs : List PendingRequest) → xs ≡ xs ++ []
  append_nothing [] = refl
  append_nothing (x ∷ xs) = ap (λ l. x ∷ l) (append_nothing xs)

  one_asked :
      (c : Call) (w : World)
      → IsBeyond c
      → (let after =
            (request_resolved o self c.need c.target c.escrow_id c.pending_id c.now c.later w).1 in
          (after.credit_db ≡ w.credit_db)
          × (after.pending_requests ≡ w.pending_requests ++ asked c ∷ []))
  unfolding request_resolved ask_owner create_pending_request
  one_asked c w h =
      rw (beyond-tier3 c.target.credits_per_call self.autonomy_config h.0 h.1, request_resolved)
        (refl, refl)

  -- In a run of requests whose targets all cost at least what either limit of the owner is, no credit
  -- moves: the credit database is the one from before, and the pending requests are the old
  -- ones followed by one for each call, in order.
  pub run_requests-asked :
      (calls : List Call) (w : World)
      → All IsBeyond calls
      → ((run_requests calls w).credit_db ≡ w.credit_db)
        × ((run_requests calls w).pending_requests ≡ w.pending_requests ++ map asked calls)
  unfolding run_requests
  run_requests-asked [] w h = (refl, append_nothing w.pending_requests)
  run_requests-asked (c ∷ cs) w (h, hs) =
      let after =
        (request_resolved o self c.need c.target c.escrow_id c.pending_id c.now c.later w).1 in
      let first = one_asked c w h in
      let rest = run_requests-asked cs after hs in
      (
        rest.0 ∙ first.0,
        rest.1
            ∙ ap (λ l. l ++ map asked cs) first.1
            ∙ append_insert w.pending_requests (map asked cs) (asked c),
      )
