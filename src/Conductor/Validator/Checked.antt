-- ===== src/Conductor/Validator/Checked.antt =====
-- The whole validation: what it accepts is a plan, and every plan is accepted as it is.
use mathlib.Core.List.{append-eq-nil_iff}
use agentbnb.Prelude.{
  ℕ, ◌≤◌, ◌<◌, ◌≡◌, ◌≢◌, refl, sym, ap, subst, ◌⊎◌, inl, inr, true, String, Option, none, some,
  List, [], ◌∷◌, ◌++◌, map, All, contains, contains-occurrences, occurrences, IsDistinct, arith,
}
use agentbnb.Conductor.Json.{Json, null, boolean, number, text, array, object, Fields, elements_of}
use agentbnb.Conductor.Kahn.{find_cycle}
use agentbnb.Conductor.Kahn.Order.{find_cycle-none, find_cycle-IsRanked}
use agentbnb.Conductor.Validator.{
  ValidationError, ValidationResult, circular, with_errors, not_array, check_items, duplicates,
  unknown_dependencies, edges_of, id_of, normalize, conclude, check_plan, validate_elements,
  validate_and_normalize_subtasks,
}
use agentbnb.Conductor.Validator.Plan.{IsTask, IsPlan, Dependencies, ids_of}
use agentbnb.Conductor.Validator.OneItem.{field_errors-IsTask}
use agentbnb.Conductor.Validator.Steps.{
  Clean, AllKnown, deps_of, check_items-Clean, duplicates-none, unknown_dependencies-none,
}
use agentbnb.Conductor.Validator.Edges.{edges_of-Known, edges_of-to}

module _ (items : List Fields) where
  abbrev pub item_ids : List String
  item_ids = map id_of items

  abbrev pub set_of : List String
  set_of = (duplicates item_ids []).1

  abbrev pub graph_errors : List ValidationError
  graph_errors = (duplicates item_ids []).0 ++ unknown_dependencies set_of 0 items

  abbrev pub cycle : Option String
  cycle = find_cycle item_ids (edges_of set_of items)

abbrev pub accepted : List Fields → ValidationResult
accepted items = record { valid = map normalize items; errors = [] }

no_cycle_of_none : cycle [] ≡ none
unfolding edges_of occurrences
no_cycle_of_none = find_cycle-IsRanked [] [] tt (λ w. ground arith) (λ w. 0) tt

-- The two ways that steps 5 to 7 end.
conclude-cases :
    (errs : List ValidationError) (items : List Fields) (c : Option String)
    → (items ≡ [] → c ≡ none)
    → ((errs ≡ []) × (c ≡ none) × (conclude errs items c ≡ accepted items))
      ⊎ ((e : ValidationError) × (es : List ValidationError) × (conclude errs items c
            ≡ with_errors (e ∷ es)))
unfolding conclude
conclude-cases (e ∷ es) items c h = inr (e, es ++ [], refl)
conclude-cases [] [] none h = inl (refl, refl, refl)
conclude-cases [] (f ∷ fs) none h = inl (refl, refl, refl)
conclude-cases [] [] (some v) h = ground (arith, h)
conclude-cases [] (f ∷ fs) (some v) h = inr (circular v, [], refl)

pub empty_cycle : (items : List Fields) → items ≡ [] → cycle items ≡ none
empty_cycle items e = rw e no_cycle_of_none

All-IsTask :
    (max : ℕ) (items : List Fields) → All (Clean max) items → All (IsTask max) (map normalize items)
All-IsTask max [] h = tt
All-IsTask max (f ∷ fs) h = (field_errors-IsTask max h.0.0 f h.0.1, All-IsTask max fs h.1)

pub ids-normalize : (items : List Fields) → ids_of (map normalize items) ≡ map id_of items
unfolding normalize
ids-normalize [] = refl
ids-normalize (f ∷ fs) = ap (λ rest. id_of f ∷ rest) (ids-normalize fs)

known_each :
    (id_set : List String) (P : String → Type 0) (deps : List String)
    → ((w : String) → contains w id_set ≡ true → P w)
    → AllKnown id_set deps
    → All (λ dep. P dep) deps
known_each id_set P [] p k = tt
known_each id_set P (d ∷ ds) p k = (p d k.0, known_each id_set P ds p k.1)

known_dependencies :
    (id_set : List String) (P : String → Type 0) (items : List Fields)
    → ((w : String) → contains w id_set ≡ true → P w)
    → All (λ f. AllKnown id_set (deps_of f)) items
    → Dependencies (λ dep id. P dep) (map normalize items)
unfolding normalize
known_dependencies id_set P [] p k = tt
known_dependencies id_set P (f ∷ fs) p k =
    (known_each id_set P (deps_of f) p k.0, known_dependencies id_set P fs p k.1)

module _ (items : List Fields) (z : graph_errors items ≡ []) where
  once :
      (w : String)
      → (occurrences w (set_of items) ≡ occurrences w (item_ids items))
        × (occurrences w (item_ids items) ≤ 1)
  unfolding occurrences
  once w =
      let d = duplicates-none w (item_ids items) [] (omega arith) (append-eq-nil_iff.0 z).0 in
      omega (arith, d)

  in_ids : (w : String) → contains w (set_of items) ≡ true → 0 < occurrences w (item_ids items)
  in_ids w h = ground (arith, once w, contains-occurrences w (set_of items), h)

  all_known : All (λ f. AllKnown (set_of items) (deps_of f)) items
  all_known = unknown_dependencies-none (set_of items) 0 items (append-eq-nil_iff.0 z).1

  -- Steps 3 and 4 found nothing, and step 5 no cycle.
  checked-IsPlan :
      (max : ℕ) → All (Clean max) items → cycle items ≡ none → IsPlan max (map normalize items)
  checked-IsPlan max clean c =
      let edges = edges_of (set_of items) items in
      let (r, ranked) =
        find_cycle-none (item_ids items) edges
          (edges_of-Known (item_ids items) (set_of items) in_ids items (λ w. omega arith))
          (λ w. (once w).1) c in
      record {
        tasks = All-IsTask max items clean;
        distinct = subst IsDistinct (sym (ids-normalize items)) (λ w. (once w).1);
        closed =
            known_dependencies (set_of items) _ items
              (λ w h. subst (λ ids. 0 < occurrences w ids) (sym (ids-normalize items)) (in_ids w h))
              all_known;
        rank = r;
        acyclic = edges_of-to (set_of items) (λ dep id. r dep < r id) items all_known ranked;
      }

-- What the validation returns is a plan without errors, or errors without a plan.
abbrev pub Outcome : ℕ → ValidationResult → Type 0
Outcome max r = ((r.errors ≡ []) × IsPlan max r.valid) ⊎ ((r.errors ≢ []) × (r.valid ≡ []))

with_errors-Outcome :
    (max : ℕ) (e : ValidationError) (es : List ValidationError) → Outcome max (with_errors (e ∷ es))
with_errors-Outcome max e es = inr ((λ p. ground (arith, p)), refl)

check_plan-Outcome :
    (max : ℕ) (found : List ValidationError) (items : List Fields)
    → All (Clean max) items
    → Outcome max (check_plan found items)
unfolding check_plan
check_plan-Outcome max found items clean =
    elim (conclude-cases (found ++ graph_errors items) items (cycle items) (empty_cycle items)) [
      | inl (z, c, r) ↦
          rw r (inl (refl, checked-IsPlan items (append-eq-nil_iff.0 z).1 max clean c))
      | inr (e, es, r) ↦ rw r (with_errors-Outcome max e es)
    ]

pub empty-IsPlan : (max : ℕ) → IsPlan max []
unfolding occurrences
empty-IsPlan max = record {
  tasks = tt;
  distinct = λ w. ground arith;
  closed = tt;
  rank = λ w. 0;
  acyclic = tt;
}

validate_elements-Outcome : (max : ℕ) (js : List Json) → Outcome max (validate_elements max js)
unfolding validate_elements
validate_elements-Outcome max [] = inl (refl, empty-IsPlan max)
validate_elements-Outcome max (j ∷ js) =
    check_plan-Outcome max (check_items max 0 (j ∷ js)).0 (check_items max 0 (j ∷ js)).1
      (check_items-Clean max 0 (j ∷ js))

-- For every value and ceiling, the validation either reports no error and returns a plan within
-- the ceiling, or reports an error and returns no sub-task.
pub validate-IsPlan : (raw : Json) (max : ℕ) → Outcome max (validate_and_normalize_subtasks raw max)
unfolding validate_and_normalize_subtasks
validate-IsPlan null max = with_errors-Outcome max not_array []
validate-IsPlan (boolean b) max = with_errors-Outcome max not_array []
validate-IsPlan (number n) max = with_errors-Outcome max not_array []
validate-IsPlan (text s) max = with_errors-Outcome max not_array []
validate-IsPlan (array js) max = validate_elements-Outcome max (elements_of js)
validate-IsPlan (object f) max = with_errors-Outcome max not_array []
