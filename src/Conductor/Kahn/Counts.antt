-- ===== src/Conductor/Kahn/Counts.antt =====
-- What the maps of Kahn's algorithm hold once they are built: the in-degree of a node counts the
-- edges into it, and its list of neighbours is that of the edges out of it.
use mathlib.Core.List.{append-nil, append_assoc}
use agentbnb.Prelude.{
  ℕ, suc, ◌+◌, ◌≤◌, ◌<◌, ◌≡◌, refl, false, not, ◌&&◌, String, none, some, List, [], ◌∷◌, ◌++◌, ℤ,
  pos, succ_ℤ, is_zero, is_positive, Dict, get, put, keys, get-put, occurrences-keys-put,
  occurrences, contains, All, str_eq, str_eq_iff, if◌then◌else◌, arith, max, min, Option-cases, inl,
  inr, ◌⊎◌, ◌∙◌, ap, sym, Bool-cases, IsDistinct, ◌==◌,
}
use agentbnb.Conductor.Kahn.{
  empty_graph, Edge, Graph, degree, adjacent, blank, push_neighbour, add_edges, build, roots,
  find_stuck,
}

-- The items that the node is a dependency of.
unfoldable pub targets : String → List Edge → List String
targets w [] = []
targets w ((dep, item) ∷ es) = let rest = targets w es in if str_eq dep w then item ∷ rest else rest

-- How many dependencies of the item are not yet done.
unfoldable pub pending : String → List String → List Edge → ℕ
unfolding contains
pending w done [] = 0
pending w done ((dep, item) ∷ es) =
    let n = pending w done es in if str_eq item w && not (contains dep done) then suc n else n

-- Both ends of every edge are nodes.
abbrev pub Known : List String → List Edge → Type 0
Known ids es = All (λ e. (0 < occurrences e.0 ids) × (0 < occurrences e.1 ids)) es

pub pending-Known :
    (w : String) (done ids : List String) (es : List Edge)
    → Known ids es
    → 0 < pending w done es
    → 0 < occurrences w ids
unfolding pending
pending-Known w done ids [] k h = omega arith
pending-Known w done ids ((d, i) ∷ es) k h =
    ground (arith, pending-Known w done ids es k.1, k.0.1, str_eq_iff i w)

degree-blank :
    (v : String) (vs : List String) (g : Graph)
    → degree v g.degrees ≡ pos 0
    → degree v (blank vs g).degrees ≡ pos 0
unfolding blank degree
degree-blank v [] g h = h
degree-blank v (u ∷ vs) g h = degree-blank v vs _ (ground (arith, h, get-put v u (pos 0) g.degrees))

degree-add_edges :
    (v : String) (n : ℕ) (es : List Edge) (g : Graph)
    → degree v g.degrees ≡ pos n
    → degree v (add_edges es g).degrees ≡ pos (n + pending v [] es)
unfolding add_edges pending contains degree
degree-add_edges v n [] g h = ground (arith, h)
degree-add_edges v n ((d, i) ∷ es) g h =
    let m : ℕ = if str_eq i v then suc n else n in
    let ih =
      degree-add_edges v m es
        (record {
          degrees = put i (succ_ℤ (degree i g.degrees)) g.degrees;
          neighbours = push_neighbour d i g.neighbours;
        })
        (ground (arith, h, get-put v i (succ_ℤ (degree i g.degrees)) g.degrees, str_eq_iff i v)) in
    ground (arith, ih)

pub degree-build :
    (v : String) (ids : List String) (es : List Edge)
    → degree v (build ids es).degrees ≡ pos (pending v [] es)
unfolding build
degree-build v ids es =
    let e = degree-add_edges v 0 es (blank ids empty_graph) (degree-blank v ids empty_graph refl) in
    ground (arith, e)

get-blank :
    (w : String) (vs : List String) (g : Graph)
    → (get w g.neighbours ≡ some []) ⊎ (0 < occurrences w vs)
    → get w (blank vs g).neighbours ≡ some []
unfolding blank occurrences
get-blank w [] g (inl h) = h
get-blank w [] g (inr h) = ground (arith, h)
get-blank w (u ∷ vs) g h =
    get-blank w vs _ (ground (arith, h, get-put w u [] g.neighbours, str_eq_iff u w))

get-push_neighbour :
    (w d i : String) (xs : List String) (adj : Dict (List String))
    → get w adj ≡ some xs
    → get w (push_neighbour d i adj) ≡ some (if str_eq d w then xs ++ i ∷ [] else xs)
unfolding push_neighbour
get-push_neighbour w d i xs adj h = elim (Option-cases (get d adj)) [
  | inl e ↦ ground (arith, h, e, str_eq_iff d w)
  | inr (ys, e) ↦ ground (arith, h, e, get-put w d (ys ++ i ∷ []) adj, str_eq_iff d w)
]

get-add_edges :
    (w : String) (xs : List String) (es : List Edge) (g : Graph)
    → get w g.neighbours ≡ some xs
    → get w (add_edges es g).neighbours ≡ some (xs ++ targets w es)
unfolding add_edges targets
get-add_edges w xs [] g h = h ∙ ap some (sym (append-nil xs))
get-add_edges w xs ((d, i) ∷ es) g h = elim (Bool-cases (str_eq d w)) [
  | inl e ↦
      let p = get-push_neighbour w d i xs g.neighbours h in
      let ih =
        get-add_edges w (xs ++ i ∷ []) es
          (record {
            degrees = put i (succ_ℤ (degree i g.degrees)) g.degrees;
            neighbours = push_neighbour d i g.neighbours;
          })
          (ground (arith, p, e)) in
      ground (arith, ih, e, append_assoc xs (i ∷ []) (targets w es))
  | inr e ↦
      let p = get-push_neighbour w d i xs g.neighbours h in
      let ih =
        get-add_edges w xs es
          (record {
            degrees = put i (succ_ℤ (degree i g.degrees)) g.degrees;
            neighbours = push_neighbour d i g.neighbours;
          })
          (ground (arith, p, e)) in
      ground (arith, ih, e)
]

pub adjacent-build :
    (w : String) (ids : List String) (es : List Edge)
    → 0 < occurrences w ids
    → adjacent w (build ids es).neighbours ≡ targets w es
unfolding build adjacent
adjacent-build w ids es h =
    let e = get-add_edges w [] es (blank ids empty_graph) (get-blank w ids empty_graph (inr h)) in
    ground (arith, e)

pub find_stuck-none :
    (v : String) (d : Dict ℤ) → find_stuck d ≡ none → is_positive (degree v d) ≡ false
unfolding find_stuck degree get
find_stuck-none v [] h = refl
find_stuck-none v ((u, n) ∷ d) h = ground (arith, find_stuck-none v d, h)

occurrences-roots :
    (w : String) (d : Dict ℤ)
    → occurrences w (keys d) ≤ 1
    → occurrences w (roots d) ≡ (if is_zero (degree w d) then occurrences w (keys d) else 0)
unfolding roots degree get occurrences
occurrences-roots w [] h = refl
occurrences-roots w ((u, n) ∷ d) h = ground (arith, occurrences-roots w d, h)

keys-blank :
    (w : String) (vs : List String) (g : Graph)
    → occurrences w (keys (blank vs g).degrees)
      ≡ max (occurrences w (keys g.degrees)) (min 1 (occurrences w vs))
unfolding blank occurrences
keys-blank w [] g = omega arith
keys-blank w (u ∷ vs) g =
    let ih =
      keys-blank w vs
        (record { degrees = put u (pos 0) g.degrees; neighbours = put u [] g.neighbours }) in
    ground (arith, ih, occurrences-keys-put w u (pos 0) g.degrees)

none_yet : (i : String) → occurrences i (keys empty_graph.degrees) ≡ 0
unfolding occurrences
none_yet i = refl

keys-add_edges :
    (w : String) (ids : List String) (es : List Edge) (g : Graph)
    → ((i : String) → occurrences i (keys g.degrees) ≡ min 1 (occurrences i ids))
    → Known ids es
    → occurrences w (keys (add_edges es g).degrees) ≡ min 1 (occurrences w ids)
unfolding add_edges
keys-add_edges w ids [] g h k = h w
keys-add_edges w ids ((d, i) ∷ es) g h k =
    keys-add_edges w ids es _
      (λ v. ground (
        arith,
        h v,
        h i,
        k.0.1,
        str_eq_iff i v,
        occurrences-keys-put v i (succ_ℤ (degree i g.degrees)) g.degrees,
      ))
      k.1

pub roots-build :
    (w : String) (ids : List String) (es : List Edge)
    → Known ids es
    → IsDistinct ids
    → occurrences w (roots (build ids es).degrees)
      ≡ (if pending w [] es == 0 then occurrences w ids else 0)
unfolding build
roots-build w ids es k u =
    let start : (i : String)
        → occurrences i (keys (blank ids empty_graph).degrees) ≡ min 1 (occurrences i ids) =
      λ i. omega (arith, keys-blank i ids empty_graph, none_yet i) in
    let n = keys-add_edges w ids es (blank ids empty_graph) start k in
    let r = occurrences-roots w (build ids es).degrees (omega (arith, n)) in
    ground (arith, r, n, u w, degree-build w ids es)
