-- ===== src/Autonomy/Scores.antt =====
-- `minMaxNormalize`, `scorePeers` and the candidates of a search (src/autonomy/auto-request.ts, and the same
-- loop in src/conductor/capability-matcher.ts). What the code does with a `double` is the record
-- `Double`. Of a card the fields are kept that are read; its internal data are the idle rates.
pub mod Best
use agentbnb.Prelude.{
  ℕ, Bool, true, false, not, ◌||◌, String, List, [], ◌∷◌, ◌++◌, Option, none, some, map, str_eq,
  leb, ◌==◌, if◌then◌else◌,
}
use agentbnb.Credit.Table.{select_all}
use agentbnb.Credit.Order.{order_by}
use agentbnb.Identity.Agents.{AgentRecord, CanonicalIdentity, resolve_canonical_identity}

pub record Double (F : Type 0) : Type 0 where
  pub nought : F
  pub half : F
  pub one : F
  pub of_credits : ℕ → F
  pub less : F → F → Bool
  pub same : F → F → Bool
  pub smaller : F → F → F
  pub larger : F → F → F
  pub minus : F → F → F
  pub times : F → F → F
  pub over : F → F → F

pub record Skill (F : Type 0) : Type 0 where
  pub id : String
  pub capability_type : Option String
  pub capability_types : List String
  pub credits_per_call : ℕ
  pub success_rate : Option F
  pub idle_rate : Option F

-- A card of version 1.0 has no skills.
pub record Card (F : Type 0) : Type 0 where
  pub id : String
  pub owner : String
  pub agent_id : Option String
  pub skills : Option (List (Skill F))
  pub credits_per_call : ℕ
  pub success_rate : Option F
  pub idle_rate : Option F

pub record Candidate (F : Type 0) : Type 0 where
  pub card : Card F
  pub cost : ℕ
  pub skill_id : Option String
  pub skill_success_rate : Option F
  pub skill_idle_rate : Option F
  pub load_factor : Option F

pub record ScoredPeer (F : Type 0) : Type 0 where
  pub candidate : Candidate F
  pub raw_score : F

abbrev or_else {ℓ} : {A : Type ℓ} → Option A → A → A
or_else none d = d
or_else (some a) d = a

abbrev or_option {ℓ} : {A : Type ℓ} → Option A → Option A → Option A
or_option none b = b
or_option (some a) b = some a

-- The agents of the registry, if there is one, and who the requester is among them.
abbrev names_self : CanonicalIdentity → List AgentRecord → Option String → String → Bool
names_self self agents none owner =
    let peer = resolve_canonical_identity owner agents in
    if peer.resolved then str_eq peer.agent_id self.agent_id else false
names_self self agents (some agent_id) owner =
    let peer = resolve_canonical_identity owner agents in
    if str_eq agent_id ""
    then (if peer.resolved then str_eq peer.agent_id self.agent_id else false)
    else str_eq agent_id self.agent_id

abbrev is_same_agent : String → Option (List AgentRecord) → Option String → String → Bool
is_same_agent self_owner none agent_id owner = false
is_same_agent self_owner (some agents) agent_id owner =
    let self = resolve_canonical_identity self_owner agents in
    if self.resolved then names_self self agents agent_id owner else false

module _ {F : Type 0} where
  unfoldable pub is_eligible : String → Option (List AgentRecord) → Candidate F → Bool
  is_eligible self_owner registry c =
      if str_eq c.card.owner self_owner
      then false
      else not (is_same_agent self_owner registry c.card.agent_id c.card.owner)

  abbrev skill_candidate : Card F → Skill F → Candidate F
  skill_candidate card s = record {
    card = card;
    cost = s.credits_per_call;
    skill_id = some s.id;
    skill_success_rate = s.success_rate;
    skill_idle_rate = s.idle_rate;
    load_factor = none;
  }

  abbrev card_candidate : Card F → Candidate F
  card_candidate card = record {
    card = card;
    cost = card.credits_per_call;
    skill_id = none;
    skill_success_rate = none;
    skill_idle_rate = none;
    load_factor = none;
  }

  abbrev candidates_of : Card F → List (Candidate F)
  candidates_of card = elim card.skills [
    | none ↦ card_candidate card ∷ []
    | some skills ↦ map (skill_candidate card) skills
  ]

  -- Every skill of a card, or the card itself.
  unfoldable pub build_candidates : List (Card F) → List (Candidate F)
  build_candidates [] = []
  build_candidates (card ∷ rest) = candidates_of card ++ build_candidates rest

  -- Those of them that are not dearer than the need allows.
  unfoldable pub affordable_candidates : ℕ → List (Card F) → List (Candidate F)
  unfolding build_candidates
  affordable_candidates max_cost_credits cards =
      select_all (λ c. leb c.cost max_cost_credits) (build_candidates cards)

module _ {F : Type 0} (d : Double F) where
  abbrev least : F → List F → F
  least m [] = m
  least m (v ∷ vs) = least (d.smaller m v) vs

  abbrev greatest : F → List F → F
  greatest m [] = m
  greatest m (v ∷ vs) = greatest (d.larger m v) vs

  abbrev rescale : F → F → List F → List F
  rescale low high values =
      if d.same high low
      then map (λ v. d.one) values
      else map (λ v. d.over (d.minus v low) (d.minus high low)) values

  unfoldable pub min_max_normalize : List F → List F
  min_max_normalize [] = []
  min_max_normalize (v ∷ []) = d.one ∷ []
  min_max_normalize (v ∷ w ∷ vs) = rescale (least v (w ∷ vs)) (greatest v (w ∷ vs)) (v ∷ w ∷ vs)

  abbrev success_rate_of : Candidate F → F
  success_rate_of c = or_else (or_option c.skill_success_rate c.card.success_rate) d.half

  abbrev cost_efficiency_of : Candidate F → F
  cost_efficiency_of c = if c.cost == 0 then d.one else d.over d.one (d.of_credits c.cost)

  abbrev idle_rate_of : Candidate F → F
  idle_rate_of c = or_else (or_option c.skill_idle_rate c.card.idle_rate) d.one

  abbrev load_factor_of : Candidate F → F
  load_factor_of c = or_else c.load_factor d.one

  -- The entry of an array and the rest, where a missing entry counts as 0.
  abbrev next : List F → F × List F
  next [] = (d.nought, [])
  next (v ∷ vs) = (v, vs)

  unfoldable pub combine :
      List (Candidate F) → List F → List F → List F → List F → List (ScoredPeer F)
  combine [] success cost idle load = []
  combine (c ∷ cs) success cost idle load =
      let (s, success') = next success in
      let (e, cost') = next cost in
      let (i, idle') = next idle in
      let (l, load') = next load in
      record { candidate = c; raw_score = d.times (d.times (d.times s e) i) l }
      ∷ combine cs success' cost' idle' load'

  abbrev score_eligible : List (Candidate F) → List (ScoredPeer F)
  score_eligible eligible =
      order_by (λ a b. d.less b.raw_score a.raw_score)
        (combine eligible (min_max_normalize (map success_rate_of eligible))
          (min_max_normalize (map cost_efficiency_of eligible))
          (min_max_normalize (map idle_rate_of eligible))
          (min_max_normalize (map load_factor_of eligible)))

  -- The peers other than oneself, the best score first.
  unfoldable pub score_peers :
      List (Candidate F) → String → Option (List AgentRecord) → List (ScoredPeer F)
  unfolding min_max_normalize combine is_eligible
  score_peers candidates self_owner registry =
      score_eligible (select_all (is_eligible self_owner registry) candidates)
