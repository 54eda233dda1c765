-- ===== src/Conductor/Kahn/Loop.antt =====
-- The loop over the queue. Its invariant: an in-degree counts the dependencies that are not done;
-- the nodes queued or done are those without such dependencies, each once; and each node was
-- dequeued after all its dependencies.
use agentbnb.Prelude.{
  ℕ, zero, suc, ◌+◌, ◌≤◌, ◌<◌, ◌≡◌, String, List, [], ◌∷◌, ◌++◌, pos, Dict, List-cases, inl, inr,
  refl, occurrences, occurrences-append, contains, contains-occurrences, ◌==◌, length,
  length-append, length-Within, Within, IsDistinct, str_eq_iff, if◌then◌else◌, ap, ◌∙◌, sym, subst,
  arith,
}
use agentbnb.Conductor.Kahn.{Edge, Sort, degree, adjacent, build, roots, dequeue, drain, kahn}
use agentbnb.Conductor.Kahn.Counts.{
  pending, targets, Known, pending-Known, degree-build, adjacent-build, roots-build,
}
use agentbnb.Conductor.Kahn.Relax.{relax_counts}

-- The latest node comes first.
abbrev pub InOrder : List Edge → List String → Type 0
InOrder es [] = Unit
InOrder es (c ∷ done) = (pending c done es ≡ 0) × InOrder es done

pub record Invariant (ids : List String) (es : List Edge) (s : Sort) : Type 0 where
  pub degrees_count : (v : String) → degree v s.degrees ≡ pos (pending v s.done es)
  pub ready_once :
      (w : String)
      → occurrences w s.queue + occurrences w s.done
        ≡ (if pending w s.done es == 0 then occurrences w ids else 0)
  pub in_order : InOrder es s.done

pending-done :
    (v c : String) (done : List String) (es : List Edge)
    → occurrences c done ≡ 0
    → pending v done es ≡ pending v (c ∷ done) es + occurrences v (targets c es)
unfolding pending targets occurrences contains
pending-done v c done [] h = omega arith
pending-done v c done ((d, i) ∷ es) h = ground (
  arith,
  pending-done v c done es h,
  h,
  contains-occurrences d done,
  str_eq_iff c d,
  str_eq_iff d c,
)

drain-stop :
    (fuel : ℕ) (adj : Dict (List String)) (s : Sort) → s.queue ≡ [] → drain (suc fuel) adj s ≡ s
unfolding drain
drain-stop fuel adj s e = rw e

drain-next :
    (fuel : ℕ) (adj : Dict (List String)) (current : String) (rest : List String) (s : Sort)
    → s.queue ≡ current ∷ rest
    → drain (suc fuel) adj s ≡ drain fuel adj (dequeue adj current rest s)
unfolding drain
drain-next fuel adj current rest s e = rw e

length-dequeue :
    (adj : Dict (List String)) (current : String) (rest : List String) (s : Sort)
    → length (dequeue adj current rest s).done ≡ suc (length s.done)
unfolding dequeue
length-dequeue adj current rest s = refl

module _ (ids : List String) (es : List Edge) (known : Known ids es) (once : IsDistinct ids) where
  -- The node at the head of the queue is not done, and waits for nothing.
  head_ready :
      (current : String) (rest : List String) (s : Sort)
      → s.queue ≡ current ∷ rest
      → Invariant ids es s
      → (occurrences current s.done ≡ 0)
        × (pending current s.done es ≡ 0)
        × (0 < occurrences current ids)
  unfolding occurrences
  head_ready current rest s e i =
      let queued : occurrences current s.queue ≡ occurrences current (current ∷ rest) =
        ap (occurrences current) e in
      ground (arith, i.ready_once current, once current, queued, str_eq_iff current current)

  pass_counts :
      (w current : String) (rest : List String) (s : Sort)
      → s.queue ≡ current ∷ rest
      → Invariant ids es s
      → (let next = dequeue (build ids es).neighbours current rest s in
          (degree w next.degrees ≡ pos (pending w next.done es))
          × (occurrences w next.queue + occurrences w next.done
              ≡ (if pending w next.done es == 0 then occurrences w ids else 0)))
  unfolding dequeue occurrences
  pass_counts w current rest s e i =
      let ready = head_ready current rest s e i in
      let adj = adjacent-build current ids es ready.2 in
      let queued : occurrences w s.queue ≡ occurrences w (current ∷ rest) = ap (occurrences w) e in
      let fewer = pending-done w current s.done es ready.0 in
      let out = adjacent current (build ids es).neighbours in
      let same : occurrences w out ≡ occurrences w (targets current es) = ap (occurrences w) adj in
      let moved =
        relax_counts w (pending w s.done es) out s.degrees rest (i.degrees_count w)
          (omega (arith, fewer, same)) in
      (
        ground (arith, moved.0, fewer, same),
        ground (
          arith,
          moved.1,
          fewer,
          same,
          queued,
          i.ready_once w,
          once w,
          pending-Known w s.done ids es known,
        ),
      )

  dequeue-Invariant :
      (current : String) (rest : List String) (s : Sort)
      → s.queue ≡ current ∷ rest
      → Invariant ids es s
      → Invariant ids es (dequeue (build ids es).neighbours current rest s)
  unfolding dequeue
  dequeue-Invariant current rest s e i = record {
    degrees_count = λ v. (pass_counts v current rest s e i).0;
    ready_once = λ w. (pass_counts w current rest s e i).1;
    in_order = ((head_ready current rest s e i).1, i.in_order);
  }

  drain-Invariant :
      (fuel : ℕ) (s : Sort)
      → Invariant ids es s
      → Invariant ids es (drain fuel (build ids es).neighbours s)
  unfolding drain
  drain-Invariant zero s i = i
  drain-Invariant (suc fuel) s i = elim (List-cases s.queue) [
    | inl e ↦ subst (Invariant ids es) (sym (drain-stop fuel (build ids es).neighbours s e)) i
    | inr (current, rest, e) ↦
        subst (Invariant ids es) (sym (drain-next fuel _ current rest s e))
          (drain-Invariant fuel _ (dequeue-Invariant current rest s e i))
  ]

  done-Within : (s : Sort) → Invariant ids es s → Within (s.queue ++ s.done) ids
  done-Within s i w = ground (arith, i.ready_once w, occurrences-append w s.queue s.done)

  done_bound : (s : Sort) → Invariant ids es s → length s.queue + length s.done ≤ length ids
  done_bound s i =
      omega (
        arith,
        length-append s.queue s.done,
        length-Within (s.queue ++ s.done) ids (done-Within s i),
      )

  drain-ends :
      (fuel : ℕ) (s : Sort)
      → Invariant ids es s
      → length ids ≤ fuel + length s.done
      → (drain fuel (build ids es).neighbours s).queue ≡ []
  unfolding drain
  drain-ends zero s i le = elim (List-cases s.queue) [
    | inl e ↦ e
    | inr (current, rest, e) ↦ absurd (omega (arith, le, done_bound s i, ap length e))
  ]
  drain-ends (suc fuel) s i le = elim (List-cases s.queue) [
    | inl e ↦ ap (λ r. r.queue) (drain-stop fuel (build ids es).neighbours s e) ∙ e
    | inr (current, rest, e) ↦
        ap (λ r. r.queue) (drain-next fuel (build ids es).neighbours current rest s e)
        ∙ drain-ends fuel (dequeue (build ids es).neighbours current rest s)
            (dequeue-Invariant current rest s e i)
            (omega (arith, le, length-dequeue (build ids es).neighbours current rest s))
  ]

  start-Invariant :
      Invariant ids es (record {
        degrees = (build ids es).degrees;
        queue = roots (build ids es).degrees;
        done = [];
      })
  unfolding occurrences
  start-Invariant = record {
    degrees_count = λ v. degree-build v ids es;
    ready_once = λ w. omega (arith, roots-build w ids es known once);
    in_order = tt;
  }

  pub kahn-Invariant : Invariant ids es (kahn ids es)
  unfolding kahn
  kahn-Invariant = drain-Invariant (length ids) _ start-Invariant

  pub kahn-ends : (kahn ids es).queue ≡ []
  unfolding kahn
  kahn-ends = drain-ends (length ids) _ start-Invariant (omega arith)
