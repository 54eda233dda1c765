-- ===== src/Conductor/Kahn/Order.antt =====
-- Kahn's algorithm against an independent notion of acyclic: the nodes can be numbered so that
-- every dependency has a smaller number than the item that waits for it.
use agentbnb.Prelude.{
  ℕ, zero, suc, ◌<◌, ◌≡◌, ◌↔◌, ap, Bool-cases, inl, inr, String, none, List, [], ◌∷◌, All,
  contains-occurrences, occurrences, length, ltb, ◌==◌, Within, Within-full, length-Within,
  IsDistinct, str_eq, str_eq_iff, if◌then◌else◌, arith,
}
use agentbnb.Conductor.Kahn.{Edge, kahn, find_cycle}
use agentbnb.Conductor.Kahn.Counts.{pending, Known, find_stuck-none}
use agentbnb.Conductor.Kahn.Loop.{InOrder, kahn-Invariant, kahn-ends}

abbrev pub IsRanked : (String → ℕ) → List Edge → Type 0
IsRanked r es = All (λ e. r e.0 < r e.1) es

-- The place of a node, counted from the one that was dequeued first.
unfoldable rank : List String → String → ℕ
rank [] w = 0
rank (x ∷ xs) w = let n = rank xs w in if str_eq x w then length xs else n

rank-length : (w : String) (xs : List String) → 0 < occurrences w xs → rank xs w < length xs
unfolding rank occurrences
rank-length w [] h = omega arith
rank-length w (x ∷ xs) h = ground (arith, rank-length w xs)

-- A dependency is among the nodes at which its item waits for nothing.
abbrev Settles : List Edge → Edge → Type 0
Settles es e = (older : List String) → pending e.1 older es ≡ 0 → 0 < occurrences e.0 older

rank-lt :
    (es : List Edge) (d i : String) (done : List String)
    → Settles es (d, i)
    → InOrder es done
    → IsDistinct done
    → 0 < occurrences i done
    → (rank done d < rank done i) × (0 < occurrences d done)
unfolding rank occurrences
rank-lt es d i [] s o u h = omega arith
rank-lt es d i (x ∷ xs) s o u h = elim (Bool-cases (str_eq x i)) [
  | inl e ↦
      let p = s xs (ground (arith, o.0, e, str_eq_iff x i)) in
      ground (arith, p, e, rank-length d xs p, u d)
  | inr e ↦
      let ih = rank-lt es d i xs s o.1 (λ w. ground (arith, u w)) (ground (arith, h, e)) in
      ground (arith, ih.0, ih.1, e, u d)
]

Settles-All :
    (es rest : List Edge)
    → ((v : String) (older : List String) → pending v older es ≡ 0 → pending v older rest ≡ 0)
    → All (Settles es) rest
unfolding pending
Settles-All es [] h = tt
Settles-All es ((d, i) ∷ rest) h = (
  (λ older p. ground (arith, h i older p, contains-occurrences d older, str_eq_iff i i)),
  Settles-All es rest (λ v older p. ground (arith, h v older p)),
)

rank-IsRanked :
    (ids : List String) (es rest : List Edge) (done : List String)
    → Known ids rest
    → Within ids done
    → All (Settles es) rest
    → InOrder es done
    → IsDistinct done
    → IsRanked (rank done) rest
rank-IsRanked ids es [] done k all s o u = tt
rank-IsRanked ids es ((d, i) ∷ rest) done k all s o u = (
  (rank-lt es d i done s.0 o u (omega (arith, k.0.1, all i))).0,
  rank-IsRanked ids es rest done k.1 all s.1 o u,
)

-- With a numbering, nothing waits when the queue is empty.
waits_for_none :
    (ids done : List String) (es rest : List Edge) (r : String → ℕ) (n : ℕ) (w : String)
    → ((v : String)
        → occurrences v done ≡ (if pending v done es == 0 then occurrences v ids else 0))
    → ((v : String) → r v < n → pending v done es ≡ 0)
    → Known ids rest
    → IsRanked r rest
    → r w < suc n
    → pending w done rest ≡ 0
unfolding pending
waits_for_none ids done es [] r n w c ih k ranked lt = omega arith
waits_for_none ids done es ((d, i) ∷ rest) r n w c ih k ranked lt =
    let tail = waits_for_none ids done es rest r n w c ih k.1 ranked.1 lt in
    ground (arith, tail, c d, ih d, k.0.0, ranked.0, str_eq_iff i w, contains-occurrences d done)

settled :
    (ids done : List String) (es : List Edge) (r : String → ℕ)
    → ((v : String)
        → occurrences v done ≡ (if pending v done es == 0 then occurrences v ids else 0))
    → Known ids es
    → IsRanked r es
    → (n : ℕ) (w : String) → r w < n
    → pending w done es ≡ 0
settled ids done es r c k ranked zero w lt = omega arith
settled ids done es r c k ranked (suc n) w lt =
    waits_for_none ids done es es r n w c (settled ids done es r c k ranked n) k ranked lt

module _ (ids : List String) (es : List Edge) (known : Known ids es) (once : IsDistinct ids) where
  done_counts :
      (w : String)
      → occurrences w (kahn ids es).done
        ≡ (if pending w (kahn ids es).done es == 0 then occurrences w ids else 0)
  unfolding occurrences
  done_counts w =
      let i = kahn-Invariant ids es known once in
      let e : occurrences w (kahn ids es).queue ≡ 0 =
        ap (occurrences w) (kahn-ends ids es known once) in
      omega (arith, i.ready_once w, e)

  all_done : find_cycle ids es ≡ none → Within ids (kahn ids es).done
  unfolding find_cycle
  all_done h w =
      let i = kahn-Invariant ids es known once in
      let s = kahn ids es in
      elim (Bool-cases (ltb (length s.done) (length ids))) [
        | inl e ↦ ground (
          arith,
          done_counts w,
          i.degrees_count w,
          find_stuck-none w s.degrees (ground (arith, h, e)),
        )
        | inr e ↦ Within-full s.done ids (λ v. ground (arith, done_counts v)) (ground (arith, e)) w
      ]

  pub find_cycle-none : find_cycle ids es ≡ none → ((r : String → ℕ) × IsRanked r es)
  find_cycle-none h =
      let i = kahn-Invariant ids es known once in
      (
        rank (kahn ids es).done,
        rank-IsRanked ids es es (kahn ids es).done known (all_done h)
            (Settles-All es es (λ v older p. p)) i.in_order
            (λ w. ground (arith, done_counts w, once w)),
      )

  pub find_cycle-IsRanked : (r : String → ℕ) → IsRanked r es → find_cycle ids es ≡ none
  unfolding find_cycle
  find_cycle-IsRanked r ranked =
      let full : Within ids (kahn ids es).done = λ w. ground (
        arith,
        done_counts w,
        settled ids (kahn ids es).done es r done_counts known ranked (suc (r w)) w (omega arith),
      ) in
      ground (arith, length-Within ids (kahn ids es).done full)

-- Between known nodes that are distinct: no cycle is reported exactly when the nodes can be numbered
-- so that every dependency has a smaller number than the item that waits for it.
pub find_cycle_iff :
    (ids : List String) (es : List Edge)
    → Known ids es
    → IsDistinct ids
    → (find_cycle ids es ≡ none) ↔ ((r : String → ℕ) × IsRanked r es)
find_cycle_iff ids es known once =
    (find_cycle-none ids es known once, λ p. find_cycle-IsRanked ids es known once p.0 p.1)

-- Between known nodes that are distinct: with one pass for each node the loop ends with an empty
-- queue, no node was dequeued twice, and each was dequeued after all its dependencies.
pub kahn-sorts :
    (ids : List String) (es : List Edge)
    → Known ids es
    → IsDistinct ids
    → ((kahn ids es).queue ≡ []) × IsDistinct (kahn ids es).done × InOrder es (kahn ids es).done
kahn-sorts ids es known once = (
  kahn-ends ids es known once,
  (λ w. ground (arith, done_counts ids es known once w, once w)),
  (kahn-Invariant ids es known once).in_order,
)
