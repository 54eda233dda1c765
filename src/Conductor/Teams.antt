-- ===== src/Conductor/Teams.antt =====
-- src/conductor/capability-matcher.ts and src/conductor/team-formation.ts: agents for the sub-tasks of a
-- plan. The search of cards, local or else remote, is the argument `search`; `stored` is what
-- `getCardsBySkillCapability` reads from. The random id of a team is left out.
pub mod Others
pub mod Cheapest
use agentbnb.Prelude.{
  ℕ, Bool, true, false, not, ◌&&◌, ◌||◌, ltb, String, List, [], ◌∷◌, Option, none, some, map, any,
  str_eq, contains, if◌then◌else◌, ◌==◌,
}
use agentbnb.Credit.Table.{select_all, select_first}
use agentbnb.Autonomy.Scores.{
  Double, Skill, Card, Candidate, ScoredPeer, build_candidates, score_peers,
}
use agentbnb.Conductor.Validator.{SubTask}

pub record RankedAlternative (F : Type 0) : Type 0 where
  pub agent : String
  pub skill : String
  pub score : F
  pub credits : ℕ

-- `MatchResult`, with the score.
pub record RankedMatch (F : Type 0) : Type 0 where
  pub subtask_id : String
  pub selected_agent : String
  pub selected_skill : String
  pub selected_card_id : Option String
  pub score : F
  pub credits : ℕ
  pub alternatives : List (RankedAlternative F)

pub data FormationStrategy : Type 0 where
  cost_optimized quality_optimized balanced : FormationStrategy

pub record TeamMember (F : Type 0) : Type 0 where
  pub subtask : SubTask
  pub capability_type : String
  pub agent : String
  pub skill : String
  pub card_id : Option String
  pub credits : ℕ
  pub score : F

pub record Team (F : Type 0) : Type 0 where
  pub strategy : FormationStrategy
  pub matched : List (TeamMember F)
  pub unrouted : List SubTask

abbrev or_blank : Option String → String
or_blank none = ""
or_blank (some s) = s

abbrev pub two {ℓ} : {A : Type ℓ} → List A → List A
two [] = []
two (a ∷ []) = a ∷ []
two (a ∷ b ∷ rest) = a ∷ b ∷ []

module _ {F : Type 0} (d : Double F) where
  abbrev pub as_alternative : ScoredPeer F → RankedAlternative F
  as_alternative p = record {
    agent = p.candidate.card.owner;
    skill = or_blank p.candidate.skill_id;
    score = p.raw_score;
    credits = p.candidate.cost;
  }

  -- The best peer and at most two alternatives, or a match without an agent.
  unfoldable pub ranked : String → List (ScoredPeer F) → RankedMatch F
  ranked subtask_id [] = record {
    subtask_id = subtask_id;
    selected_agent = "";
    selected_skill = "";
    selected_card_id = none;
    score = d.nought;
    credits = 0;
    alternatives = [];
  }
  ranked subtask_id (top ∷ rest) = record {
    subtask_id = subtask_id;
    selected_agent = top.candidate.card.owner;
    selected_skill = or_blank top.candidate.skill_id;
    selected_card_id = some top.candidate.card.id;
    score = top.raw_score;
    credits = top.candidate.cost;
    alternatives = map as_alternative (two rest);
  }

  -- The matcher does not carry the rates of a skill.
  abbrev pub without_rates : Candidate F → Candidate F
  without_rates c = record c { skill_success_rate = none; skill_idle_rate = none }

  unfoldable pub match_subtask : (String → List (Card F)) → String → SubTask → RankedMatch F
  unfolding ranked
  match_subtask search conductor_owner t = ranked t.id (
      score_peers d (map without_rates (build_candidates (search t.required_capability)))
        conductor_owner none)

  unfoldable pub match_subtasks :
      (String → List (Card F)) → String → List SubTask → List (RankedMatch F)
  unfolding match_subtask
  match_subtasks search conductor_owner tasks = map (match_subtask search conductor_owner) tasks

  -- The comparisons of the two `reduce`.
  abbrev pub finer : RankedMatch F → RankedMatch F → RankedMatch F
  finer best m = if d.less best.score m.score then m else best

  abbrev pub cheaper : RankedMatch F → RankedMatch F → RankedMatch F
  cheaper best m =
      if ltb m.credits best.credits
      then m
      else if m.credits == best.credits && d.less best.score m.score
      then m
      else best

  abbrev pub reduce :
      (RankedMatch F → RankedMatch F → RankedMatch F)
      → RankedMatch F
      → List (RankedMatch F)
      → RankedMatch F
  reduce f best [] = best
  reduce f best (m ∷ ms) = reduce f (f best m) ms

  -- Of at least one match.
  unfoldable pub select_by_strategy :
      FormationStrategy → RankedMatch F → List (RankedMatch F) → RankedMatch F
  select_by_strategy balanced m ms = m
  select_by_strategy quality_optimized m ms = reduce finer m (m ∷ ms)
  select_by_strategy cost_optimized m ms = reduce cheaper m (m ∷ ms)

  abbrev is_type : String → Option String → Bool
  is_type capability none = false
  is_type capability (some t) = str_eq t capability

  abbrev offers : String → Skill F → Bool
  offers capability s =
      is_type capability s.capability_type || contains capability s.capability_types

  abbrev skills_of : Card F → List (Skill F)
  skills_of card = elim card.skills [ none ↦ [] | some skills ↦ skills ]

  unfoldable pub get_cards_by_skill_capability : String → List (Card F) → List (Card F)
  get_cards_by_skill_capability capability cards =
      select_all (λ card. any (offers capability) (skills_of card)) cards

  abbrev pub direct_with : SubTask → Card F → Option (Skill F) → RankedMatch F
  direct_with t card none = record {
    subtask_id = t.id;
    selected_agent = card.owner;
    selected_skill = "";
    selected_card_id = some card.id;
    score = d.one;
    credits = 0;
    alternatives = [];
  }
  direct_with t card (some s) = record {
    subtask_id = t.id;
    selected_agent = card.owner;
    selected_skill = s.id;
    selected_card_id = some card.id;
    score = d.one;
    credits = s.credits_per_call;
    alternatives = [];
  }

  -- The card at its first skill that offers the capability.
  abbrev pub direct_match : SubTask → Card F → RankedMatch F
  direct_match t card =
      direct_with t card (select_first (offers t.required_capability) (skills_of card))

  abbrev pub member_of : SubTask → RankedMatch F → TeamMember F
  member_of t m = record {
    subtask = t;
    capability_type = t.required_capability;
    agent = m.selected_agent;
    skill = m.selected_skill;
    card_id = m.selected_card_id;
    credits = m.credits;
    score = m.score;
  }

  abbrev pub from_alternative : String → RankedAlternative F → RankedMatch F
  from_alternative subtask_id a = record {
    subtask_id = subtask_id;
    selected_agent = a.agent;
    selected_skill = a.skill;
    selected_card_id = none;
    score = a.score;
    credits = a.credits;
    alternatives = [];
  }

  -- The fallback, if it found an agent.
  unfoldable pub choose_ranked : FormationStrategy → SubTask → RankedMatch F → Option (TeamMember F)
  unfolding select_by_strategy
  choose_ranked strategy t m =
      if str_eq m.selected_agent ""
      then none
      else some (
          member_of t
            (select_by_strategy strategy m (map (from_alternative m.subtask_id) m.alternatives)))

  abbrev pub choose_direct : FormationStrategy → SubTask → List (Card F) → Option (TeamMember F)
  choose_direct strategy t [] = none
  choose_direct strategy t (card ∷ cards) =
      some (
        member_of t
          (select_by_strategy strategy (direct_match t card) (map (direct_match t) cards)))

  -- The body of the loop: cards that state the capability come first.
  unfoldable pub staff_subtask :
      (String → List (Card F))
      → String
      → List (Card F)
      → FormationStrategy
      → SubTask
      → Option (TeamMember F)
  unfolding choose_ranked get_cards_by_skill_capability match_subtask
  staff_subtask search conductor_owner stored strategy t =
      elim (select_all (λ c. not (str_eq c.owner conductor_owner))
        (get_cards_by_skill_capability t.required_capability stored)) [
          | card ∷ cards ↦ choose_direct strategy t (card ∷ cards)
          | [] ↦ choose_ranked strategy t (match_subtask search conductor_owner t)
        ]

  abbrev pub add_to_team : SubTask → Option (TeamMember F) → Team F → Team F
  add_to_team t none team = record team { unrouted = t ∷ team.unrouted }
  add_to_team t (some m) team = record team { matched = m ∷ team.matched }

  unfoldable pub form_team :
      (String → List (Card F)) → String → List (Card F) → FormationStrategy → List SubTask → Team F
  unfolding staff_subtask
  form_team search conductor_owner stored strategy [] = record {
    strategy = strategy;
    matched = [];
    unrouted = [];
  }
  form_team search conductor_owner stored strategy (t ∷ rest) =
      add_to_team t (staff_subtask search conductor_owner stored strategy t)
        (form_team search conductor_owner stored strategy rest)
