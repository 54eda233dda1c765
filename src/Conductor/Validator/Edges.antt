-- ===== src/Conductor/Validator/Edges.antt =====
-- The edges of step 5 against the dependencies of the tasks: both ends are known, and a numbering of
-- the edges is one of the dependencies.
use agentbnb.Prelude.{
  All-append, ◌≤◌, ◌<◌, ◌≡◌, subst, true, Bool-cases, inl, inr, String, List, [], ◌∷◌, ◌++◌, map,
  All, contains, occurrences, str_eq_iff, if◌then◌else◌, arith,
}
use agentbnb.Conductor.Json.{Fields}
use agentbnb.Conductor.Kahn.Counts.{Known}
use agentbnb.Conductor.Validator.{id_of, edges_into, edges_of, normalize}
use agentbnb.Conductor.Validator.Plan.{Dependencies}
use agentbnb.Conductor.Validator.Steps.{deps_of, AllKnown}

module _ {A : Type 0} (P : A → Type 0) where
  All-left : (xs ys : List A) → All P (xs ++ ys) → All P xs
  All-left [] ys p = tt
  All-left (x ∷ xs) ys p = (p.0, All-left xs ys p.1)

  All-right : (xs ys : List A) → All P (xs ++ ys) → All P ys
  All-right [] ys p = p
  All-right (x ∷ xs) ys p = All-right xs ys p.1

module _ (ids id_set : List String)
    (in_set : (w : String) → contains w id_set ≡ true → 0 < occurrences w ids) where
  edges_into-Known :
      (item : String) (deps : List String)
      → 0 < occurrences item ids
      → Known ids (edges_into id_set item deps)
  unfolding edges_into
  edges_into-Known item [] h = tt
  edges_into-Known item (d ∷ ds) h =
      let rest = edges_into-Known item ds h in
      elim (Bool-cases (contains d id_set)) [
        | inl e ↦ rw e ((in_set d e, h), rest)
        | inr e ↦ rw e rest
      ]

  pub edges_of-Known :
      (fs : List Fields)
      → ((w : String) → occurrences w (map id_of fs) ≤ occurrences w ids)
      → Known ids (edges_of id_set fs)
  unfolding edges_of occurrences
  edges_of-Known [] h = tt
  edges_of-Known (f ∷ fs) h =
      All-append (λ e. (0 < occurrences e.0 ids) × (0 < occurrences e.1 ids))
        (edges_into id_set (id_of f) (deps_of f)) (edges_of id_set fs)
        (edges_into-Known (id_of f) (deps_of f)
          (ground (arith, h (id_of f), str_eq_iff (id_of f) (id_of f))))
        (edges_of-Known fs (λ w. ground (arith, h w)))

-- A relation on the edges is one on the known dependencies.
module _ (id_set : List String) (P : String → String → Type 0) where
  edges_into-to :
      (item : String) (deps : List String)
      → AllKnown id_set deps
      → All (λ e. P e.0 e.1) (edges_into id_set item deps)
      → All (λ dep. P dep item) deps
  unfolding edges_into
  edges_into-to item [] k h = tt
  edges_into-to item (d ∷ ds) k h =
      let both : All (λ e. P e.0 e.1) ((d, item) ∷ edges_into id_set item ds) =
        subst
          (λ b.
            All (λ e. P e.0 e.1)
              (let rest = edges_into id_set item ds in if b then (d, item) ∷ rest else rest))
          k.0 h in
      (both.0, edges_into-to item ds k.1 both.1)

  pub edges_of-to :
      (fs : List Fields)
      → All (λ f. AllKnown id_set (deps_of f)) fs
      → All (λ e. P e.0 e.1) (edges_of id_set fs)
      → Dependencies P (map normalize fs)
  unfolding edges_of normalize
  edges_of-to [] k h = tt
  edges_of-to (f ∷ fs) k h =
      let into = edges_into id_set (id_of f) (deps_of f) in
      (
        edges_into-to (id_of f) (deps_of f) k.0
            (All-left (λ e. P e.0 e.1) into (edges_of id_set fs) h),
        edges_of-to fs k.1 (All-right (λ e. P e.0 e.1) into (edges_of id_set fs) h),
      )

  edges_into-from :
      (item : String) (deps : List String)
      → All (λ dep. P dep item) deps
      → All (λ e. P e.0 e.1) (edges_into id_set item deps)
  unfolding edges_into
  edges_into-from item [] h = tt
  edges_into-from item (d ∷ ds) h =
      let rest = edges_into-from item ds h.1 in
      elim (Bool-cases (contains d id_set)) [ inl e ↦ rw e (h.0, rest) | inr e ↦ rw e rest ]

  pub edges_of-from :
      (fs : List Fields)
      → Dependencies P (map normalize fs)
      → All (λ e. P e.0 e.1) (edges_of id_set fs)
  unfolding edges_of normalize
  edges_of-from [] h = tt
  edges_of-from (f ∷ fs) h =
      All-append (λ e. P e.0 e.1) (edges_into id_set (id_of f) (deps_of f)) (edges_of id_set fs)
        (edges_into-from (id_of f) (deps_of f) h.0) (edges_of-from fs h.1)
