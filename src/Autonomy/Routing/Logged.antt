-- ===== src/Autonomy/Routing/Logged.antt =====
-- The audit events of an automatic request as a whole (`requestWithAutonomy` of
-- src/autonomy/auto-request.ts), the search for a target included.
use agentbnb.Prelude.{
  ℕ, suc, ◌+◌, ◌≡◌, refl, ap, ◌∙◌, inl, inr, String, List, [], ◌∷◌, Option, none, some, length,
  arith, subst, Bool-cases, Option-cases, List-cases, ltb,
}
use agentbnb.Identity.Agents.{AgentRecord}
use agentbnb.Autonomy.Scores.{Double, Card, ScoredPeer, affordable_candidates, score_peers}
use agentbnb.Autonomy.World.{World, Outcome, returned, raised, continue_with}
use agentbnb.Autonomy.Request.{
  CapabilityNeed, ResolvedTarget, Outside, AutoRequestor, AutoRequestResult, present,
}
use agentbnb.Autonomy.Request.Logged.{length-insert_audit_event, request_resolved_logs_once}
use agentbnb.Autonomy.Routing.{
  Directory, Route, routed, unrouted, is_self_target, find_cards, remote_cards, choose, accept_any,
  accept_top, route, request_routed, request_with_autonomy,
}

module _ {F : Type 0} (d : Double F) (dir : Directory F) (self : AutoRequestor)
    (agents : List AgentRecord) (need : CapabilityNeed) (now : ℕ) where
  abbrev remote_failures : Option (List (Card F)) → ℕ
  remote_failures none = 1
  remote_failures (some cards) = 0

  abbrev registry_failures : Option String → ℕ
  registry_failures none = 0
  registry_failures (some url) = remote_failures (dir.fetch_remote url need.query)

  abbrev search_failures : List (Card F) → ℕ
  search_failures [] = registry_failures (present self.registry_url)
  search_failures (card ∷ cards) = 0

  -- 1 if no local card is found and the remote registry, which is asked then, throws, and else 0.
  abbrev pub lookup_failures : ℕ
  lookup_failures = search_failures (dir.search_cards need.query)

  find_cards_logs :
      (w : World)
      → (cards : List (Card F)) × (after : World) × (find_cards d dir self agents need now w
          ≡ (returned cards, after))
        × (length after.request_log ≡ length w.request_log + lookup_failures)
  unfolding find_cards
  find_cards_logs w = elim (List-cases (dir.search_cards need.query)) [
    | inr (c, cs, e) ↦ rw (e, find_cards) (c ∷ cs, w, refl, omega arith)
    | inl e ↦ elim (Option-cases (present self.registry_url)) [
      | inl f ↦ rw (e, f, find_cards) ([], w, refl, omega arith)
      | inr (url, f) ↦ elim (Option-cases (dir.fetch_remote url need.query)) [
        | inl g ↦
            rw (e, f, find_cards, g, remote_cards)
              ([], _, refl, omega (arith, length-insert_audit_event _ now w.request_log))
        | inr (cards, g) ↦ rw (e, f, find_cards, g, remote_cards) (cards, w, refl, omega arith)
      ]
    ]
  ]

  -- Where no target is found, that is logged; a target is not.
  abbrev Chosen : ℕ → Outcome Route × World → Type 0
  Chosen n (returned (routed t), w) = length w.request_log ≡ n
  Chosen n (returned unrouted, w) = length w.request_log ≡ suc n
  Chosen n (raised e, w) = ⊥

  accept_any-Chosen :
      (o : Option ResolvedTarget) (w : World)
      → Chosen (length w.request_log) (accept_any d dir self agents need now o w)
  accept_any-Chosen none w = length-insert_audit_event _ now w.request_log
  accept_any-Chosen (some t) w = elim (Bool-cases (is_self_target d dir self agents need now t)) [
    | inl e ↦ rw e (length-insert_audit_event _ now w.request_log)
    | inr e ↦ elim (Bool-cases (ltb need.max_cost_credits t.credits_per_call)) [
      | inl h ↦ rw (e, h) (length-insert_audit_event _ now w.request_log)
      | inr h ↦ rw (e, h) refl
    ]
  ]

  accept_top-Chosen :
      (p : ScoredPeer F) (o : Option ResolvedTarget) (w : World)
      → Chosen (length w.request_log) (accept_top d dir self agents need now p o w)
  accept_top-Chosen p none w = length-insert_audit_event _ now w.request_log
  accept_top-Chosen p (some t) w = elim (Bool-cases (is_self_target d dir self agents need now t)) [
    | inl e ↦ rw e (length-insert_audit_event _ now w.request_log)
    | inr e ↦ rw e refl
  ]

  choose-Chosen :
      (peers : List (ScoredPeer F)) (w : World)
      → Chosen (length w.request_log) (choose d dir self agents need now peers w)
  unfolding choose
  choose-Chosen [] w = accept_any-Chosen (dir.resolve need.query) w
  choose-Chosen (top ∷ rest) w = accept_top-Chosen top _ w

  route-Chosen :
      (w : World)
      → Chosen (length w.request_log + lookup_failures) (route d dir self agents need now w)
  unfolding route
  route-Chosen w =
      let (cards, after, found, logged) = find_cards_logs w in
      rw (found, route)
        (subst (λ n. Chosen n (choose d dir self agents need now (peers cards) after)) logged
          (choose-Chosen (peers cards) after))
    where
      peers : List (Card F) → List (ScoredPeer F)
      peers cards =
          score_peers d (affordable_candidates need.max_cost_credits cards) self.owner (some agents)

  module _ (o : Outside) (escrow_id pending_id : String) (later : ℕ) where
    routed_logs :
        (n : ℕ) (q : Outcome Route × World) (r : AutoRequestResult)
        → Chosen n q
        → (continue_with
            (request_routed d dir self agents need now o escrow_id pending_id later)
            q).0
          ≡ returned r
        → length
            (continue_with
              (request_routed d dir self agents need now o escrow_id pending_id later)
              q).1.request_log
          ≡ suc n
    routed_logs n (returned (routed t), w) r chosen h =
        request_resolved_logs_once o self need t escrow_id pending_id now later w r h
        ∙ ap suc chosen
    routed_logs n (returned unrouted, w) r chosen h = chosen
    routed_logs n (raised e, w) r chosen h = absurd chosen

    -- A whole automatic request that returns, with whatever result, has written exactly one row of the
    -- request log, and one more if the search found no local card and the remote registry failed.
    pub request_with_autonomy_logs :
        (w : World) (r : AutoRequestResult)
        → (request_with_autonomy d dir self agents need now o escrow_id pending_id later w).0
          ≡ returned r
        → length
            (request_with_autonomy d dir self agents need now o escrow_id pending_id later
              w).1.request_log
          ≡ suc (length w.request_log + lookup_failures)
    unfolding request_with_autonomy
    request_with_autonomy_logs w r h =
        routed_logs _ (route d dir self agents need now w) r (route-Chosen w) h
