-- ===== src/Conductor/Kahn.antt =====
-- src/conductor/decomposition-validator.ts, step 5 of `_validate`: Kahn's algorithm on the maps
-- `inDegree` and `adjList`. A missing in-degree reads as zero, a missing list of neighbours as the
-- empty one. The state keeps the nodes that were dequeued, whose number is `processed`; the loop
-- runs on fuel, one for each pass.
pub mod Counts
mod Relax
pub mod Loop
pub mod Order
use agentbnb.Prelude.{
  ℕ, zero, suc, Bool, true, false, String, Option, none, some, List, [], ◌∷◌, ◌++◌, ℤ, pos, succ_ℤ,
  pred_ℤ, is_zero, is_positive, ltb, length, Dict, get, put, if◌then◌else◌,
}

-- An edge (dep, item): `dep` must complete before `item`.
abbrev pub Edge : Type 0
Edge = String × String

pub record Graph : Type 0 where
  pub degrees : Dict ℤ
  pub neighbours : Dict (List String)

abbrev or_zero : Option ℤ → ℤ
or_zero none = pos 0
or_zero (some n) = n

abbrev or_empty : Option (List String) → List String
or_empty none = []
or_empty (some xs) = xs

-- `inDegree.get(v) ?? 0`.
unfoldable pub degree : String → Dict ℤ → ℤ
degree v d = or_zero (get v d)

-- `adjList.get(v) ?? []`.
unfoldable pub adjacent : String → Dict (List String) → List String
adjacent v adj = or_empty (get v adj)

unfoldable pub blank : List String → Graph → Graph
unfolding put
blank [] g = g
blank (v ∷ vs) g =
    blank vs (record { degrees = put v (pos 0) g.degrees; neighbours = put v [] g.neighbours })

-- `adjList.get(dep)?.push(item)`.
unfoldable pub push_neighbour : String → String → Dict (List String) → Dict (List String)
unfolding get put
push_neighbour dep item adj = elim (get dep adj) [
  | none ↦ adj
  | some xs ↦ put dep (xs ++ item ∷ []) adj
]

unfoldable pub add_edges : List Edge → Graph → Graph
unfolding push_neighbour put degree
add_edges [] g = g
add_edges ((dep, item) ∷ es) g = add_edges es (record {
  degrees = put item (succ_ℤ (degree item g.degrees)) g.degrees;
  neighbours = push_neighbour dep item g.neighbours;
})

abbrev pub empty_graph : Graph
empty_graph = record { degrees = []; neighbours = [] }

unfoldable pub build : List String → List Edge → Graph
unfolding blank add_edges
build ids es = add_edges es (blank ids empty_graph)

-- The nodes whose in-degree is zero at the start.
unfoldable pub roots : Dict ℤ → List String
roots [] = []
roots ((v, n) ∷ d) = let rest = roots d in if is_zero n then v ∷ rest else rest

-- The loop over the neighbours of the dequeued node.
unfoldable pub relax : List String → Dict ℤ × List String → Dict ℤ × List String
unfolding degree put
relax [] s = s
relax (v ∷ vs) (d, queue) =
    let n = pred_ℤ (degree v d) in
    relax vs (put v n d, (if is_zero n then queue ++ v ∷ [] else queue))

pub record Sort : Type 0 where
  pub degrees : Dict ℤ
  pub queue : List String
  pub done : List String

-- One pass of the `while` loop.
unfoldable pub dequeue : Dict (List String) → String → List String → Sort → Sort
unfolding relax adjacent
dequeue adj current rest s =
    let (d, queue) = relax (adjacent current adj) (s.degrees, rest) in
    record { degrees = d; queue = queue; done = current ∷ s.done }

unfoldable pub drain : ℕ → Dict (List String) → Sort → Sort
unfolding dequeue
drain zero adj s = s
drain (suc fuel) adj s = elim s.queue [
  | [] ↦ s
  | current ∷ rest ↦ drain fuel adj (dequeue adj current rest s)
]

unfoldable pub kahn : List String → List Edge → Sort
unfolding build roots drain
kahn ids es =
    let g = build ids es in
    drain (length ids) g.neighbours
      (record { degrees = g.degrees; queue = roots g.degrees; done = [] })

-- The first node whose in-degree is still positive.
unfoldable pub find_stuck : Dict ℤ → Option String
find_stuck [] = none
find_stuck ((v, n) ∷ d) = let rest = find_stuck d in if is_positive n then some v else rest

-- The node that a cycle is reported at, if fewer nodes were dequeued than there are items.
unfoldable pub find_cycle : List String → List Edge → Option String
unfolding kahn find_stuck
find_cycle ids es =
    let s = kahn ids es in if ltb (length s.done) (length ids) then find_stuck s.degrees else none
