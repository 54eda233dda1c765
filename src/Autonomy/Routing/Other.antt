-- ===== src/Autonomy/Routing/Other.antt =====
-- Whom a request is routed to (`requestWithAutonomy` of src/autonomy/auto-request.ts).
use agentbnb.Prelude.{
  ℕ, ◌≡◌, refl, inl, inr, false, List, [], ◌∷◌, Option, none, some, arith, Bool-cases, Option-cases,
  List-cases, subst, ltb,
}
use agentbnb.Identity.Agents.{AgentRecord, same_agent_identity}
use agentbnb.Autonomy.Scores.{Double, Card, ScoredPeer, affordable_candidates, score_peers}
use agentbnb.Autonomy.World.{World, Outcome, returned, raised}
use agentbnb.Autonomy.Request.{CapabilityNeed, ResolvedTarget, AutoRequestor, present}
use agentbnb.Autonomy.Routing.{
  Directory, Route, routed, unrouted, is_self_target, find_cards, choose, route, accept_any,
  accept_top, remote_cards,
}

routed_injective : {t u : ResolvedTarget} → returned (routed t) ≡ returned (routed u) → t ≡ u
routed_injective h = cc

module _ {F : Type 0} (d : Double F) (dir : Directory F) (self : AutoRequestor)
    (agents : List AgentRecord) (need : CapabilityNeed) (now : ℕ) where
  -- A target, if there is one, is somebody else.
  abbrev Avoids : Outcome Route × World → Type 0
  Avoids (returned (routed t), w) = is_self_target d dir self agents need now t ≡ false
  Avoids (returned unrouted, w) = Unit
  Avoids (raised e, w) = ⊥

  accept_any-Avoids :
      (o : Option ResolvedTarget) (w : World) → Avoids (accept_any d dir self agents need now o w)
  accept_any-Avoids none w = tt
  accept_any-Avoids (some t) w = elim (Bool-cases (is_self_target d dir self agents need now t)) [
    | inl e ↦ rw e tt
    | inr e ↦ elim (Bool-cases (ltb need.max_cost_credits t.credits_per_call)) [
      | inl h ↦ rw (e, h) tt
      | inr h ↦ rw (e, h) e
    ]
  ]

  accept_top-Avoids :
      (p : ScoredPeer F) (o : Option ResolvedTarget) (w : World)
      → Avoids (accept_top d dir self agents need now p o w)
  accept_top-Avoids p none w = tt
  accept_top-Avoids p (some t) w = elim (Bool-cases (is_self_target d dir self agents need now t)) [
    | inl e ↦ rw e tt
    | inr e ↦ rw e e
  ]

  choose-Avoids :
      (peers : List (ScoredPeer F)) (w : World) → Avoids (choose d dir self agents need now peers w)
  unfolding choose
  choose-Avoids [] w = accept_any-Avoids (dir.resolve need.query) w
  choose-Avoids (top ∷ rest) w = accept_top-Avoids top _ w

  -- The search always comes to some cards.
  find_cards-returns :
      (w : World)
      → (cards : List (Card F)) × (after : World) × (find_cards d dir self agents need now w
          ≡ (returned cards, after))
  unfolding find_cards
  find_cards-returns w = elim (List-cases (dir.search_cards need.query)) [
    | inr (c, cs, e) ↦ rw (e, find_cards) (c ∷ cs, w, refl)
    | inl e ↦ elim (Option-cases (present self.registry_url)) [
      | inl f ↦ rw (e, f, find_cards) ([], w, refl)
      | inr (url, f) ↦ elim (Option-cases (dir.fetch_remote url need.query)) [
        | inl g ↦ rw (e, f, find_cards, g, remote_cards) ([], _, refl)
        | inr (cards, g) ↦ rw (e, f, find_cards, g, remote_cards) (cards, w, refl)
      ]
    ]
  ]

  route-Avoids : (w : World) → Avoids (route d dir self agents need now w)
  unfolding route
  route-Avoids w =
      let (cards, after, found) = find_cards-returns w in
      rw (found, route)
        (choose-Avoids
          (score_peers d (affordable_candidates need.max_cost_credits cards) self.owner
            (some agents))
          after)

  Avoids-target :
      (q : Outcome Route × World) (t : ResolvedTarget)
      → Avoids q
      → q.0 ≡ returned (routed t)
      → is_self_target d dir self agents need now t ≡ false
  Avoids-target (returned (routed u), w) t h e =
      subst (λ x. is_self_target d dir self agents need now x ≡ false) (routed_injective e) h
  Avoids-target (returned unrouted, w) t h e = cc
  Avoids-target (raised f, w) t h e = cc

  other-same_agent_identity :
      (t : ResolvedTarget)
      → is_self_target d dir self agents need now t ≡ false
      → same_agent_identity t.owner self.owner agents ≡ false
  unfolding is_self_target same_agent_identity
  other-same_agent_identity t h = ground (arith, h)

  -- A request is never routed to the requester: a target that the routing finds, whatever the search
  -- and the resolver answer, belongs to another owner, and to another agent where the registry
  -- knows both owners.
  pub route_avoids_self :
      (t : ResolvedTarget) (w : World)
      → (route d dir self agents need now w).0 ≡ returned (routed t)
      → same_agent_identity t.owner self.owner agents ≡ false
  route_avoids_self t w e =
      other-same_agent_identity t
        (Avoids-target (route d dir self agents need now w) t (route-Avoids w) e)
