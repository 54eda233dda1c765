-- ===== src/Conductor/Teams/Others.antt =====
-- Who is in a team (src/conductor/team-formation.ts).
use agentbnb.Prelude.{
  ◌+◌, ◌≡◌, refl, sym, ap, inl, inr, false, not, String, List, [], ◌∷◌, Option, none, some, map,
  arith, str_eq, occurrences, All, Bool-cases, List-cases, subst,
}
use agentbnb.Credit.Table.{select_all}
use agentbnb.Autonomy.Scores.{Double, Skill, Card, ScoredPeer, is_eligible}
use agentbnb.Autonomy.Scores.Best.{IsOther, score_peers-IsOther}
use agentbnb.Conductor.Validator.{SubTask}
use agentbnb.Conductor.Teams.{
  RankedMatch, FormationStrategy, cost_optimized, quality_optimized, balanced, TeamMember, Team,
  as_alternative, ranked, match_subtask, finer, cheaper, reduce, select_by_strategy,
  get_cards_by_skill_capability, direct_match, direct_with, from_alternative, choose_ranked,
  choose_direct, staff_subtask, add_to_team, form_team, two,
}

module _ {F : Type 0} (d : Double F) (conductor : String) where
  -- The match is not one of the conductor's own.
  abbrev IsForeign : RankedMatch F → Type 0
  IsForeign m = str_eq m.selected_agent conductor ≡ false

  reduce-IsForeign :
      (f : RankedMatch F → RankedMatch F → RankedMatch F) (best : RankedMatch F)
      (ms : List (RankedMatch F))
      → ((a b : RankedMatch F) → IsForeign a → IsForeign b → IsForeign (f a b))
      → IsForeign best
      → All IsForeign ms
      → IsForeign (reduce d f best ms)
  reduce-IsForeign f best [] keeps h hs = h
  reduce-IsForeign f best (m ∷ ms) keeps h (hm, hs) =
      reduce-IsForeign f (f best m) ms keeps (keeps best m h hm) hs

  finer-IsForeign : (a b : RankedMatch F) → IsForeign a → IsForeign b → IsForeign (finer d a b)
  finer-IsForeign a b h k = elim (Bool-cases (d.less a.score b.score)) [
    | inl e ↦ rw e k
    | inr e ↦ rw e h
  ]

  cheaper-IsForeign : (a b : RankedMatch F) → IsForeign a → IsForeign b → IsForeign (cheaper d a b)
  cheaper-IsForeign a b h k = ground (arith, h, k)

  select-IsForeign :
      (strategy : FormationStrategy) (m : RankedMatch F) (ms : List (RankedMatch F))
      → IsForeign m
      → All IsForeign ms
      → IsForeign (select_by_strategy d strategy m ms)
  unfolding select_by_strategy
  select-IsForeign balanced m ms h hs = h
  select-IsForeign quality_optimized m ms h hs =
      reduce-IsForeign (finer d) m (m ∷ ms) finer-IsForeign h (h, hs)
  select-IsForeign cost_optimized m ms h hs =
      reduce-IsForeign (cheaper d) m (m ∷ ms) cheaper-IsForeign h (h, hs)

  other-owner :
      (p : ScoredPeer F)
      → IsOther d conductor none p
      → str_eq p.candidate.card.owner conductor ≡ false
  unfolding is_eligible
  other-owner p h = ground (arith, h)

  alternatives-IsForeign :
      (id : String) (ps : List (ScoredPeer F))
      → All (IsOther d conductor none) ps
      → All IsForeign (map (from_alternative d id) (map (as_alternative d) (two ps)))
  alternatives-IsForeign id [] h = tt
  alternatives-IsForeign id (p ∷ []) (h, hs) = (other-owner p h, tt)
  alternatives-IsForeign id (p ∷ q ∷ ps) (h, (k, hs)) = (other-owner p h, (other-owner q k, tt))

  -- The member that staffs a sub-task is for it, and not the conductor.
  abbrev Staffs : SubTask → Option (TeamMember F) → Type 0
  Staffs t none = Unit
  Staffs t (some m) = (m.subtask ≡ t) × (str_eq m.agent conductor ≡ false)

  choose_ranked-Staffs :
      (strategy : FormationStrategy) (t : SubTask) (ps : List (ScoredPeer F))
      → All (IsOther d conductor none) ps
      → Staffs t (choose_ranked d strategy t (ranked d t.id ps))
  unfolding choose_ranked ranked
  choose_ranked-Staffs strategy t [] h = tt
  choose_ranked-Staffs strategy t (p ∷ ps) (h, hs) =
      elim (Bool-cases (str_eq p.candidate.card.owner "")) [
        | inl e ↦ rw (e, choose_ranked) tt
        | inr e ↦
            rw (e, choose_ranked)
              (
                refl,
                select-IsForeign strategy _ _ (other-owner p h) (alternatives-IsForeign t.id ps hs),
              )
      ]

  abbrev IsOwned : Card F → Type 0
  IsOwned c = str_eq c.owner conductor ≡ false

  direct-IsForeign : (t : SubTask) (c : Card F) → IsOwned c → IsForeign (direct_match d t c)
  direct-IsForeign t c h = subst (λ a. str_eq a conductor ≡ false) (sym (agent_of _)) h
    where
      agent_of : (o : Option (Skill F)) → (direct_with d t c o).selected_agent ≡ c.owner
      agent_of none = refl
      agent_of (some s) = refl

  others_only :
      (cards : List (Card F)) → All IsOwned (select_all (λ c. not (str_eq c.owner conductor)) cards)
  unfolding select_all
  others_only [] = tt
  others_only (c ∷ cards) = elim (Bool-cases (str_eq c.owner conductor)) [
    | inl e ↦ rw (e, select_all) (others_only cards)
    | inr e ↦ rw (e, select_all) (e, others_only cards)
  ]

  direct_matches-IsForeign :
      (t : SubTask) (cards : List (Card F))
      → All IsOwned cards
      → All IsForeign (map (direct_match d t) cards)
  direct_matches-IsForeign t [] h = tt
  direct_matches-IsForeign t (c ∷ cards) (h, hs) =
      (direct-IsForeign t c h, direct_matches-IsForeign t cards hs)

  choose_direct-Staffs :
      (strategy : FormationStrategy) (t : SubTask) (cards : List (Card F))
      → All IsOwned cards
      → Staffs t (choose_direct d strategy t cards)
  choose_direct-Staffs strategy t [] h = tt
  choose_direct-Staffs strategy t (c ∷ cards) (h, hs) = (
    refl,
    select-IsForeign strategy _ _ (direct-IsForeign t c h) (direct_matches-IsForeign t cards hs),
  )

  module _ (search : String → List (Card F)) (stored : List (Card F))
      (strategy : FormationStrategy) where
    staff_subtask-Staffs :
        (t : SubTask) → Staffs t (staff_subtask d search conductor stored strategy t)
    unfolding staff_subtask match_subtask
    staff_subtask-Staffs t =
        let cards =
          select_all (λ c. not (str_eq c.owner conductor))
            (get_cards_by_skill_capability d t.required_capability stored) in
        elim (List-cases cards) [
          | inl e ↦
              rw (e, staff_subtask)
                (choose_ranked-Staffs strategy t _ (score_peers-IsOther d conductor none _))
          | inr (c, rest, e) ↦
              rw (e, staff_subtask)
                (choose_direct-Staffs strategy t (c ∷ rest) (subst (All IsOwned) e (others_only _)))
        ]

    abbrev pub subtask_ids : List SubTask → List String
    subtask_ids = map (λ t. t.id)

    abbrev pub member_ids : List (TeamMember F) → List String
    member_ids = map (λ m. m.subtask.id)

    -- A team for the sub-tasks: all of them are there once, and the conductor is in no part of it.
    pub record IsTeamFor (tasks : List SubTask) (team : Team F) : Type 0 where
      pub shared_out :
          (id : String)
          → occurrences id (subtask_ids tasks)
            ≡ occurrences id (member_ids team.matched) + occurrences id (subtask_ids team.unrouted)
      pub others : All (λ m. str_eq m.agent conductor ≡ false) team.matched

    add_to_team-IsTeamFor :
        (t : SubTask) (rest : List SubTask) (o : Option (TeamMember F)) (team : Team F)
        → Staffs t o
        → IsTeamFor rest team
        → IsTeamFor (t ∷ rest) (add_to_team d t o team)
    unfolding occurrences
    add_to_team-IsTeamFor t rest none team s h = record {
      shared_out = λ id. ground (arith, h.shared_out id);
      others = h.others;
    }
    add_to_team-IsTeamFor t rest (some m) team (s, foreign) h = record {
      shared_out = λ id. ground (arith, h.shared_out id, ap (λ x. x.id) s);
      others = (foreign, h.others);
    }

    -- A team shares its sub-tasks out: each is matched with a member or left unrouted, as often as it
    -- is given, and nothing else is; and no member is the conductor itself.
    pub form_team-IsTeamFor :
        (tasks : List SubTask)
        → IsTeamFor tasks (form_team d search conductor stored strategy tasks)
    unfolding form_team occurrences
    form_team-IsTeamFor [] = record { shared_out = λ id. refl; others = tt }
    form_team-IsTeamFor (t ∷ rest) =
        add_to_team-IsTeamFor t rest _ _ (staff_subtask-Staffs t) (form_team-IsTeamFor rest)
