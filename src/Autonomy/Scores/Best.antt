-- ===== src/Autonomy/Scores/Best.antt =====
-- Whom `scorePeers` (src/autonomy/auto-request.ts) puts first, and whom it leaves out.
use agentbnb.Prelude.{
  ◌≡◌, inl, inr, Bool, true, false, String, List, [], ◌∷◌, Option, arith, All, Bool-cases,
}
use agentbnb.Credit.Table.{select_all}
use agentbnb.Credit.Order.{place, order_by}
use agentbnb.Identity.Agents.{AgentRecord}
use agentbnb.Autonomy.Scores.{Double, Candidate, ScoredPeer, is_eligible, combine, score_peers}

-- The order of numbers other than NaN.
pub record IsOrdered {F : Type 0} (d : Double F) : Type 0 where
  pub less_irrefl : (a : F) → d.less a a ≡ false
  pub less_trans : (a b c : F) → d.less a b ≡ true → d.less b c ≡ true → d.less a c ≡ true
  pub not_less_trans : (a b c : F) → d.less a b ≡ false → d.less b c ≡ false → d.less a c ≡ false

module _ {F : Type 0} (d : Double F) (ordered : IsOrdered d) where
  -- No score of the list is above this one.
  abbrev IsTop : F → List (ScoredPeer F) → Type 0
  IsTop top = All λ p. d.less top p.raw_score ≡ false

  -- Every peer scores at least what each later one does.
  abbrev pub AreDescending : List (ScoredPeer F) → Type 0
  AreDescending [] = Unit
  AreDescending (p ∷ ps) = IsTop p.raw_score ps × AreDescending ps

  IsTop-lower : (a b : F) (ps : List (ScoredPeer F)) → d.less a b ≡ false → IsTop b ps → IsTop a ps
  IsTop-lower a b [] h t = tt
  IsTop-lower a b (p ∷ ps) h (t, ts) =
      (ordered.not_less_trans a b p.raw_score h t, IsTop-lower a b ps h ts)

  asymmetric : (a b : F) → d.less a b ≡ true → d.less b a ≡ false
  asymmetric a b h = elim (Bool-cases (d.less b a)) [
    | inl e ↦ ground (arith, ordered.less_trans a b a h e, ordered.less_irrefl a)
    | inr e ↦ e
  ]

  abbrev higher : ScoredPeer F → ScoredPeer F → Bool
  higher a b = d.less b.raw_score a.raw_score

  IsTop-place :
      (a : F) (p : ScoredPeer F) (ps : List (ScoredPeer F))
      → d.less a p.raw_score ≡ false
      → IsTop a ps
      → IsTop a (place higher p ps)
  unfolding place
  IsTop-place a p [] h t = (h, tt)
  IsTop-place a p (q ∷ qs) h (t, ts) = elim (Bool-cases (higher q p)) [
    | inl e ↦ rw (e, place) (t, IsTop-place a p qs h ts)
    | inr e ↦ rw (e, place) (h, (t, ts))
  ]

  place-AreDescending :
      (p : ScoredPeer F) (ps : List (ScoredPeer F))
      → AreDescending ps
      → AreDescending (place higher p ps)
  unfolding place
  place-AreDescending p [] h = (tt, tt)
  place-AreDescending p (q ∷ qs) (t, h) = elim (Bool-cases (higher q p)) [
    | inl e ↦
        rw (e, place)
          (
            IsTop-place q.raw_score p qs (asymmetric p.raw_score q.raw_score e) t,
            place-AreDescending p qs h,
          )
    | inr e ↦ rw (e, place) ((e, IsTop-lower p.raw_score q.raw_score qs e t), (t, h))
  ]

  order_by-AreDescending : (ps : List (ScoredPeer F)) → AreDescending (order_by higher ps)
  unfolding order_by
  order_by-AreDescending [] = tt
  order_by-AreDescending (p ∷ ps) =
      place-AreDescending p (order_by higher ps) (order_by-AreDescending ps)

module _ {F : Type 0} (d : Double F) (self : String) (registry : Option (List AgentRecord)) where
  -- The peer may be asked by the requester.
  abbrev pub IsOther : ScoredPeer F → Type 0
  IsOther p = is_eligible self registry p.candidate ≡ true

  combine-IsOther :
      (cs : List (Candidate F)) (success cost idle load : List F)
      → All (λ c. is_eligible self registry c ≡ true) cs
      → All IsOther (combine d cs success cost idle load)
  unfolding combine
  combine-IsOther [] success cost idle load h = tt
  combine-IsOther (c ∷ cs) success cost idle load (h, hs) = (h, combine-IsOther cs _ _ _ _ hs)

  place-IsOther :
      (before : ScoredPeer F → ScoredPeer F → Bool) (p : ScoredPeer F) (ps : List (ScoredPeer F))
      → IsOther p
      → All IsOther ps
      → All IsOther (place before p ps)
  unfolding place
  place-IsOther before p [] h hs = (h, tt)
  place-IsOther before p (q ∷ qs) h (hq, hs) = elim (Bool-cases (before q p)) [
    | inl e ↦ rw (e, place) (hq, place-IsOther before p qs h hs)
    | inr e ↦ rw (e, place) (h, (hq, hs))
  ]

  order_by-IsOther :
      (before : ScoredPeer F → ScoredPeer F → Bool) (ps : List (ScoredPeer F))
      → All IsOther ps
      → All IsOther (order_by before ps)
  unfolding order_by
  order_by-IsOther before [] h = tt
  order_by-IsOther before (p ∷ ps) (h, hs) =
      place-IsOther before p (order_by before ps) h (order_by-IsOther before ps hs)

  select_all-eligible :
      (cs : List (Candidate F))
      → All (λ c. is_eligible self registry c ≡ true) (select_all (is_eligible self registry) cs)
  unfolding select_all
  select_all-eligible [] = tt
  select_all-eligible (c ∷ cs) = elim (Bool-cases (is_eligible self registry c)) [
    | inl e ↦ rw (e, select_all) (e, select_all-eligible cs)
    | inr e ↦ rw (e, select_all) (select_all-eligible cs)
  ]

  pub score_peers-IsOther :
      (candidates : List (Candidate F)) → All IsOther (score_peers d candidates self registry)
  unfolding score_peers
  score_peers-IsOther candidates =
      order_by-IsOther _ _ (combine-IsOther _ _ _ _ _ (select_all-eligible candidates))

-- With scores that are ordered as numbers are, the peers come in descending order of their scores, and
-- none of them is the requester, by its name or by its agent in the registry.
pub score_peers-descending :
    {F : Type 0} (d : Double F) (ordered : IsOrdered d) (candidates : List (Candidate F))
    (self : String) (registry : Option (List AgentRecord))
    → AreDescending d ordered (score_peers d candidates self registry)
      × All (IsOther d self registry) (score_peers d candidates self registry)
unfolding score_peers
score_peers-descending d ordered candidates self registry =
    (order_by-AreDescending d ordered _, score_peers-IsOther d self registry candidates)
