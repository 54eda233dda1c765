-- ===== src/Conductor/Validator/Roundtrip.antt =====
-- Every plan is accepted, and comes back from its JSON as it is.
use mathlib.Core.List.{append-eq-nil_iff}
use agentbnb.Prelude.{
  ℕ, suc, ◌+◌, ◌≤◌, ◌<◌, ◌≡◌, refl, sym, ap, subst, ◌∙◌, true, Option, none, String, List, [], ◌∷◌,
  map, All, contains, contains-occurrences, occurrences, arith,
}
use agentbnb.Conductor.Json.{Json, object, Fields, elements_of, elements}
use agentbnb.Conductor.Kahn.Order.{find_cycle-IsRanked}
use agentbnb.Conductor.Validator.{
  SubTask, ValidationError, check_items, edges_of, duplicates, normalize, conclude, check_plan,
  validate_elements, validate_and_normalize_subtasks,
}
use agentbnb.Conductor.Validator.Plan.{IsTask, IsPlan, Dependencies, ids_of, to_fields, to_json}
use agentbnb.Conductor.Validator.OneItem.{normalize-to_fields, field_errors-to_fields}
use agentbnb.Conductor.Validator.Steps.{
  AllKnown, deps_of, duplicates-none, duplicates-distinct, unknown_dependencies-AllKnown,
}
use agentbnb.Conductor.Validator.Edges.{edges_of-Known, edges_of-from}
use agentbnb.Conductor.Validator.Checked.{
  item_ids, set_of, graph_errors, cycle, accepted, ids-normalize,
}

each_known :
    (id_set ids deps : List String)
    → ((w : String) → 0 < occurrences w ids → contains w id_set ≡ true)
    → All (λ dep. 0 < occurrences dep ids) deps
    → AllKnown id_set deps
each_known id_set ids [] p k = tt
each_known id_set ids (d ∷ ds) p k = (p d k.0, each_known id_set ids ds p k.1)

all_known :
    (id_set ids : List String) (items : List Fields)
    → ((w : String) → 0 < occurrences w ids → contains w id_set ≡ true)
    → Dependencies (λ dep id. 0 < occurrences dep ids) (map normalize items)
    → All (λ f. AllKnown id_set (deps_of f)) items
unfolding normalize
all_known id_set ids [] p k = tt
all_known id_set ids (f ∷ fs) p k =
    (each_known id_set ids (deps_of f) p k.0, all_known id_set ids fs p k.1)

module _ (max : ℕ) (items : List Fields) (plan : IsPlan max (map normalize items)) where
  distinct_ids : (w : String) → occurrences w (item_ids items) + occurrences w [] ≤ 1
  unfolding occurrences
  distinct_ids w = omega (arith, plan.distinct w, ap (occurrences w) (ids-normalize items))

  no_duplicates : (duplicates (item_ids items) []).0 ≡ []
  no_duplicates = duplicates-distinct (item_ids items) [] distinct_ids

  set_counts : (w : String) → occurrences w (set_of items) ≡ occurrences w (item_ids items)
  unfolding occurrences
  set_counts w = omega (arith, duplicates-none w (item_ids items) [] (omega arith) no_duplicates)

  plan-graph : graph_errors items ≡ []
  plan-graph = append-eq-nil_iff.1 (
    no_duplicates,
    unknown_dependencies-AllKnown (set_of items) 0 items (
        all_known (set_of items) (ids_of (map normalize items)) items
          (λ w h. ground (
            arith,
            h,
            contains-occurrences w (set_of items),
            set_counts w,
            ap (occurrences w) (ids-normalize items),
          ))
          plan.closed),
  )

  plan-cycle : cycle items ≡ none
  plan-cycle =
      find_cycle-IsRanked (item_ids items) (edges_of (set_of items) items)
        (edges_of-Known (item_ids items) (set_of items)
          (λ w h. ground (arith, h, contains-occurrences w (set_of items), set_counts w)) items
          (λ w. omega arith))
        (λ w. omega (arith, distinct_ids w)) plan.rank
        (edges_of-from (set_of items) (λ dep id. plan.rank dep < plan.rank id) items plan.acyclic)

conclude-clean :
    (errs : List ValidationError) (items : List Fields) (c : Option String)
    → errs ≡ []
    → c ≡ none
    → conclude errs items c ≡ accepted items
unfolding conclude
conclude-clean errs [] c e n = ground (arith, e, n)
conclude-clean errs (f ∷ fs) c e n = ground (arith, e, n)

check_plan-IsPlan :
    (max : ℕ) (items : List Fields)
    → IsPlan max (map normalize items)
    → check_plan [] items ≡ accepted items
unfolding check_plan
check_plan-IsPlan max items plan =
    conclude-clean (graph_errors items) items (cycle items) (plan-graph max items plan)
      (plan-cycle max items plan)

check_items-to_fields :
    (max i : ℕ) (ts : List SubTask)
    → All (IsTask max) ts
    → check_items max i (map (λ t. object (to_fields t)) ts) ≡ ([], map to_fields ts)
unfolding check_items
check_items-to_fields max i [] h = refl
check_items-to_fields max i (t ∷ ts) h =
    ground (arith, field_errors-to_fields max i t h.0, check_items-to_fields max (suc i) ts h.1)

elements-of : (js : List Json) → elements_of (elements js) ≡ js
unfolding elements_of elements
elements-of [] = refl
elements-of (j ∷ js) = ap (λ rest. j ∷ rest) (elements-of js)

map-normalize : (ts : List SubTask) → map normalize (map to_fields ts) ≡ ts
map-normalize [] = refl
map-normalize (t ∷ ts) =
    ap (λ u. u ∷ map normalize (map to_fields ts)) (normalize-to_fields t)
    ∙ ap (λ us. t ∷ us) (map-normalize ts)

validate-plan :
    (max : ℕ) (ts : List SubTask)
    → IsPlan max ts
    → validate_elements max (map (λ t. object (to_fields t)) ts)
      ≡ record { valid = ts; errors = [] }
unfolding validate_elements
validate-plan max [] plan = refl
validate-plan max (t ∷ ts) plan =
    let us = t ∷ ts in
    let read = check_items-to_fields max 0 us plan.tasks in
    let done =
      check_plan-IsPlan max (map to_fields us) (subst (IsPlan max) (sym (map-normalize us)) plan) in
    ap (λ r. check_plan r.0 r.1) read
    ∙ done
    ∙ ap (λ vs. record { valid = vs; errors = [] }) (map-normalize us)

-- A plan within the ceiling, printed as JSON, is accepted without errors and read back as it is.
pub validate-to_json :
    (max : ℕ) (ts : List SubTask)
    → IsPlan max ts
    → validate_and_normalize_subtasks (to_json ts) max ≡ record { valid = ts; errors = [] }
unfolding validate_and_normalize_subtasks
validate-to_json max ts plan =
    ap (validate_elements max) (elements-of (map (λ t. object (to_fields t)) ts))
    ∙ validate-plan max ts plan
