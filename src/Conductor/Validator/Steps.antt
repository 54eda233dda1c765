-- ===== src/Conductor/Validator/Steps.antt =====
-- Steps 3 and 4 on the items of step 2: no errors means distinct identifiers and known dependencies.
use mathlib.Core.List.{append-eq-nil_iff}
use agentbnb.Prelude.{
  ℕ, suc, ◌+◌, ◌≤◌, ◌≡◌, refl, sym, true, false, Bool-cases, inl, inr, String, List, [], ◌∷◌, All,
  contains, contains-occurrences, occurrences, str_eq_iff, arith,
}
use agentbnb.Conductor.Json.{Json, null, boolean, number, text, array, object, Fields, field}
use agentbnb.Conductor.Validator.{
  ValidationError, keep, check_items, field_errors, duplicates, dependencies, unknown_among,
  unknown_dependencies,
}

abbrev pub Clean : ℕ → Fields → Type 0
Clean max f = (i : ℕ) × (field_errors max i f ≡ [])

keep-Clean :
    (max i : ℕ) (f : Fields) (r : List ValidationError × List Fields) (errs : List ValidationError)
    → errs ≡ field_errors max i f
    → All (Clean max) r.1
    → All (Clean max) (keep errs f r).1
keep-Clean max i f r [] e h = ((i, sym e), h)
keep-Clean max i f r (x ∷ xs) e h = h

pub check_items-Clean : (max i : ℕ) (js : List Json) → All (Clean max) (check_items max i js).1
unfolding check_items
check_items-Clean max i [] = tt
check_items-Clean max i (null ∷ js) = check_items-Clean max (suc i) js
check_items-Clean max i (boolean b ∷ js) = check_items-Clean max (suc i) js
check_items-Clean max i (number n ∷ js) = check_items-Clean max (suc i) js
check_items-Clean max i (text s ∷ js) = check_items-Clean max (suc i) js
check_items-Clean max i (array es ∷ js) = check_items-Clean max (suc i) js
check_items-Clean max i (object f ∷ js) =
    keep-Clean max i f (check_items max (suc i) js) (field_errors max i f) refl
      (check_items-Clean max (suc i) js)

-- Without duplicates the set holds what it held and the identifiers, each once.
pub duplicates-none :
    (w : String) (xs seen : List String)
    → occurrences w seen ≤ 1
    → (duplicates xs seen).0 ≡ []
    → (occurrences w (duplicates xs seen).1 ≡ occurrences w xs + occurrences w seen)
      × (occurrences w xs + occurrences w seen ≤ 1)
unfolding duplicates occurrences
duplicates-none w [] seen u h = ground (arith, u)
duplicates-none w (x ∷ xs) seen u h = elim (Bool-cases (contains x seen)) [
  | inl e ↦ ground (arith, h, e)
  | inr e ↦
      let ih =
        duplicates-none w xs (x ∷ seen)
          (ground (arith, e, u, contains-occurrences x seen, str_eq_iff x w))
          (ground (arith, h, e)) in
      ground (arith, ih.0, ih.1, e)
]

-- Identifiers that are distinct and not seen yet give no duplicate.
pub duplicates-distinct :
    (xs seen : List String)
    → ((w : String) → occurrences w xs + occurrences w seen ≤ 1)
    → (duplicates xs seen).0 ≡ []
unfolding duplicates occurrences
duplicates-distinct [] seen u = refl
duplicates-distinct (x ∷ xs) seen u =
    let e : contains x seen ≡ false =
      ground (arith, u x, contains-occurrences x seen, str_eq_iff x x) in
    let ih = duplicates-distinct xs (x ∷ seen) (λ w. ground (arith, u w)) in ground (arith, e, ih)

abbrev pub deps_of : Fields → List String
deps_of f = dependencies (field "depends_on" f)

module _ (id_set : List String) where
  abbrev pub AllKnown : List String → Type 0
  AllKnown deps = All (λ d. contains d id_set ≡ true) deps

  pub unknown_among-none :
      (i : ℕ) (deps : List String) → unknown_among id_set i deps ≡ [] → AllKnown deps
  unfolding unknown_among
  unknown_among-none i [] h = tt
  unknown_among-none i (d ∷ ds) h = (ground (arith, h), unknown_among-none i ds (ground (arith, h)))

  pub unknown_among-AllKnown :
      (i : ℕ) (deps : List String) → AllKnown deps → unknown_among id_set i deps ≡ []
  unfolding unknown_among
  unknown_among-AllKnown i [] k = refl
  unknown_among-AllKnown i (d ∷ ds) k = ground (arith, k.0, unknown_among-AllKnown i ds k.1)

  pub unknown_dependencies-none :
      (i : ℕ) (fs : List Fields)
      → unknown_dependencies id_set i fs ≡ []
      → All (λ f. AllKnown (deps_of f)) fs
  unfolding unknown_dependencies
  unknown_dependencies-none i [] h = tt
  unknown_dependencies-none i (f ∷ fs) h =
      let both = append-eq-nil_iff.0 h in
      (unknown_among-none i (deps_of f) both.0, unknown_dependencies-none (suc i) fs both.1)

  pub unknown_dependencies-AllKnown :
      (i : ℕ) (fs : List Fields)
      → All (λ f. AllKnown (deps_of f)) fs
      → unknown_dependencies id_set i fs ≡ []
  unfolding unknown_dependencies
  unknown_dependencies-AllKnown i [] k = refl
  unknown_dependencies-AllKnown i (f ∷ fs) k =
      append-eq-nil_iff.1
        (unknown_among-AllKnown i (deps_of f) k.0, unknown_dependencies-AllKnown (suc i) fs k.1)
