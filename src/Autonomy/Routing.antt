-- ===== src/Autonomy/Routing.antt =====
-- `AutoRequestor.requestWithAutonomy` (src/autonomy/auto-request.ts) as a whole: the search of peers, the
-- choice of a target, and the request to it. The search, the remote registry and the resolver of
-- targets, which read tables of text and the network, are the record `Directory`.
pub mod Other
pub mod Logged
use agentbnb.Prelude.{
  ℕ, Bool, true, false, ◌||◌, String, List, [], ◌∷◌, Option, none, some, ltb, str_eq, if◌then◌else◌,
}
use agentbnb.Identity.Agents.{AgentRecord, CanonicalIdentity, resolve_canonical_identity}
use agentbnb.Autonomy.Tiers.{tier3, request_event, auto_request_failed}
use agentbnb.Autonomy.Scores.{Double, Card, ScoredPeer, affordable_candidates, score_peers}
use agentbnb.Autonomy.World.{World, Flow, returned, pure, audit, ◌>>=◌, ◌>>◌}
use agentbnb.Autonomy.Request.{
  CapabilityNeed, ResolvedTarget, Outside, AutoRequestor, AutoRequestResult, present, or_default,
  no_peer, no_eligible_peer, request_resolved,
}

-- `fetch_remote` is asked at the URL of the registry, with `none` for an exception.
pub record Directory (F : Type 0) : Type 0 where
  pub search_cards : String → List (Card F)
  pub fetch_remote : String → String → Option (List (Card F))
  pub resolve : String → Option ResolvedTarget

abbrev try_next {ℓ} : {A : Type ℓ} → Option A → Option A → Option A
try_next none b = b
try_next (some a) b = some a

-- The request does not find a peer.
abbrev pub nobody : AutoRequestResult
nobody = record {
  status = no_peer;
  result = none;
  escrow_id = none;
  peer = none;
  credits_spent = none;
  reason = some no_eligible_peer;
}

-- What the routing comes to.
pub data Route : Type 0 where
  routed : ResolvedTarget → Route
  unrouted : Route

module _ {F : Type 0} (d : Double F) (dir : Directory F) (self : AutoRequestor)
    (agents : List AgentRecord) (need : CapabilityNeed) (now : ℕ) where
  abbrev self_identity : CanonicalIdentity
  self_identity = resolve_canonical_identity self.owner agents

  abbrev is_self_agent : Option String → Bool
  is_self_agent none = false
  is_self_agent (some id) = str_eq id self_identity.agent_id

  abbrev owner_is_self : String → Bool
  owner_is_self owner =
      let other = resolve_canonical_identity owner agents in
      if other.resolved then str_eq other.agent_id self_identity.agent_id else false

  unfoldable pub is_self_target : ResolvedTarget → Bool
  is_self_target t =
      if str_eq t.owner self.owner
      then true
      else if self_identity.resolved
      then is_self_agent (present t.agent_id) || owner_is_self t.owner
      else false

  -- The local cards, or else the remote ones.
  abbrev pub remote_cards : String → Flow World (List (Card F))
  remote_cards url = elim (dir.fetch_remote url need.query) [
    | some cards ↦ pure cards
    | none ↦ (do audit (request_event auto_request_failed "none" "none" tier3 0) now; pure [])
  ]

  unfoldable pub find_cards : Flow World (List (Card F))
  find_cards = elim (dir.search_cards need.query) [
    | card ∷ cards ↦ pure (card ∷ cards)
    | [] ↦ elim (present self.registry_url) [ none ↦ pure [] | some url ↦ remote_cards url ]
  ]

  abbrev no_candidate : Flow World Route
  no_candidate = do
    audit (request_event auto_request_failed "system" "none" tier3 0) now
    pure unrouted

  abbrev accept_any : Option ResolvedTarget → Flow World Route
  accept_any none = no_candidate
  accept_any (some t) =
      if is_self_target t || ltb need.max_cost_credits t.credits_per_call
      then no_candidate
      else pure (routed t)

  abbrev top_fails : ScoredPeer F → Flow World Route
  top_fails p = do
    audit
        (request_event auto_request_failed p.candidate.card.id
          (or_default p.candidate.skill_id "none") tier3 p.candidate.cost)
        now
    pure unrouted

  abbrev accept_top : ScoredPeer F → Option ResolvedTarget → Flow World Route
  accept_top p none = top_fails p
  accept_top p (some t) = if is_self_target t then top_fails p else pure (routed t)

  -- The target of the best peer, or where there is none of the query.
  unfoldable pub choose : List (ScoredPeer F) → Flow World Route
  unfolding is_self_target
  choose [] = accept_any (dir.resolve need.query)
  choose (top ∷ rest) = accept_top top (
      try_next (dir.resolve (or_default top.candidate.skill_id top.candidate.card.id))
        (dir.resolve need.query))

  unfoldable pub route : Flow World Route
  unfolding find_cards choose
  route = do
    cards ← find_cards
    choose
        (score_peers d (affordable_candidates need.max_cost_credits cards) self.owner (some agents))

  abbrev pub request_routed : Outside → String → String → ℕ → Route → Flow World AutoRequestResult
  request_routed o escrow_id pending_id later unrouted = pure nobody
  request_routed o escrow_id pending_id later (routed t) =
      request_resolved o self need t escrow_id pending_id now later

  unfoldable pub request_with_autonomy :
      Outside → String → String → ℕ → Flow World AutoRequestResult
  unfolding route
  request_with_autonomy o escrow_id pending_id later = do
    r ← route
    request_routed o escrow_id pending_id later r
