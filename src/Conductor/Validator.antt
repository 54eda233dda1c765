-- ===== src/Conductor/Validator.antt =====
-- src/conductor/decomposition-validator.ts: an untrusted decomposition becomes a list of sub-tasks,
-- or the errors found in it. Nothing in the body throws, so its `try` is not modelled.
pub mod Plan
mod OneItem
mod Steps
mod Edges
pub mod Checked
pub mod Roundtrip
use agentbnb.Prelude.{
  ℕ, suc, Bool, true, false, ◌&&◌, not, String, Option, none, some, List, [], ◌∷◌, ◌++◌, map, ℤ,
  pos, leb_ℤ, contains, str_eq, if◌then◌else◌,
}
use agentbnb.Conductor.Json.{
  Json, null, boolean, number, text, array, object, Elements, Fields, no_field, elements_of, field,
}
use agentbnb.Conductor.Kahn.{Edge, find_cycle}

-- The messages, with what they name; a number is the place of the item.
pub data ValidationError : Type 0 where
  not_array : ValidationError
  not_object bad_id bad_description bad_capability bad_credits : ℕ → ValidationError
  over_credits : ℕ → ℤ → ℕ → ValidationError
  duplicate_id circular : String → ValidationError
  unknown_dependency : ℕ → String → ValidationError

pub record SubTask : Type 0 where
  pub id : String
  pub description : String
  pub required_capability : String
  pub params : Fields
  pub depends_on : List String
  pub estimated_credits : ℤ

pub record ValidationResult : Type 0 where
  pub valid : List SubTask
  pub errors : List ValidationError

abbrev pub is_empty {ℓ} : {A : Type ℓ} → List A → Bool
is_empty [] = true
is_empty (x ∷ xs) = false

-- `typeof v === 'string'`, with the text.
abbrev pub as_text : Option Json → Option String
as_text none = none
as_text (some null) = none
as_text (some (boolean b)) = none
as_text (some (number n)) = none
as_text (some (text s)) = some s
as_text (some (array js)) = none
as_text (some (object f)) = none

abbrev pub or_blank : Option String → String
or_blank none = ""
or_blank (some s) = s

abbrev pub is_named : Option String → Bool
is_named none = false
is_named (some s) = not (str_eq s "")

abbrev pub text_field : String → Fields → Option String
text_field k f = as_text (field k f)

-- `obj['id'] as string`.
abbrev pub id_of : Fields → String
id_of f = or_blank (text_field "id" f)

unfoldable pub credit_errors : ℕ → ℕ → Option Json → List ValidationError
credit_errors max i none = []
credit_errors max i (some null) = bad_credits i ∷ []
credit_errors max i (some (boolean b)) = bad_credits i ∷ []
credit_errors max i (some (number n)) =
    if leb_ℤ n (pos 0)
    then bad_credits i ∷ []
    else if leb_ℤ n (pos max)
    then []
    else over_credits i n max ∷ []
credit_errors max i (some (text s)) = bad_credits i ∷ []
credit_errors max i (some (array js)) = bad_credits i ∷ []
credit_errors max i (some (object f)) = bad_credits i ∷ []

abbrev pub unless_named : Option String → ValidationError → List ValidationError
unless_named v e = if is_named v then [] else e ∷ []

-- Step 2 on one object.
unfoldable pub field_errors : ℕ → ℕ → Fields → List ValidationError
unfolding credit_errors field
field_errors max i f =
    unless_named (text_field "id" f) (bad_id i)
    ++ (unless_named (text_field "description" f) (bad_description i)
        ++ (unless_named (text_field "required_capability" f) (bad_capability i)
            ++ credit_errors max i (field "estimated_credits" f)))

-- The errors of step 2 and the items that have none.
abbrev pub keep :
    List ValidationError
    → Fields
    → List ValidationError × List Fields
    → List ValidationError × List Fields
keep errs f (rest, items) = (errs ++ rest, (if is_empty errs then f ∷ items else items))

abbrev pub reject :
    ValidationError → List ValidationError × List Fields → List ValidationError × List Fields
reject e (rest, items) = (e ∷ rest, items)

unfoldable pub check_items : ℕ → ℕ → List Json → List ValidationError × List Fields
unfolding field_errors
check_items max i [] = ([], [])
check_items max i (null ∷ js) = reject (not_object i) (check_items max (suc i) js)
check_items max i (boolean b ∷ js) = reject (not_object i) (check_items max (suc i) js)
check_items max i (number n ∷ js) = reject (not_object i) (check_items max (suc i) js)
check_items max i (text s ∷ js) = reject (not_object i) (check_items max (suc i) js)
check_items max i (array es ∷ js) = reject (not_object i) (check_items max (suc i) js)
check_items max i (object f ∷ js) = keep (field_errors max i f) f (check_items max (suc i) js)

-- Step 3: the duplicates, and the set of the identifiers.
unfoldable pub duplicates : List String → List String → List ValidationError × List String
unfolding contains
duplicates [] seen = ([], seen)
duplicates (x ∷ xs) seen =
    let (errs, ids) = duplicates xs (if contains x seen then seen else x ∷ seen) in
    ((if contains x seen then duplicate_id x ∷ errs else errs), ids)

unfoldable pub strings_of : List Json → List String
strings_of [] = []
strings_of (null ∷ js) = strings_of js
strings_of (boolean b ∷ js) = strings_of js
strings_of (number n ∷ js) = strings_of js
strings_of (text s ∷ js) = s ∷ strings_of js
strings_of (array es ∷ js) = strings_of js
strings_of (object f ∷ js) = strings_of js

-- The texts among the entries of `depends_on`, when that is an array.
unfoldable pub dependencies : Option Json → List String
unfolding strings_of elements_of
dependencies none = []
dependencies (some null) = []
dependencies (some (boolean b)) = []
dependencies (some (number n)) = []
dependencies (some (text s)) = []
dependencies (some (array js)) = strings_of (elements_of js)
dependencies (some (object f)) = []

-- Step 4: on one item, and on all.
unfoldable pub unknown_among : List String → ℕ → List String → List ValidationError
unfolding contains
unknown_among id_set i [] = []
unknown_among id_set i (dep ∷ deps) =
    let rest = unknown_among id_set i deps in
    if contains dep id_set then rest else unknown_dependency i dep ∷ rest

unfoldable pub unknown_dependencies : List String → ℕ → List Fields → List ValidationError
unfolding unknown_among dependencies field
unknown_dependencies id_set i [] = []
unknown_dependencies id_set i (f ∷ fs) =
    unknown_among id_set i (dependencies (field "depends_on" f))
    ++ unknown_dependencies id_set (suc i) fs

-- The edges of step 5, in the order of the loops.
unfoldable pub edges_into : List String → String → List String → List Edge
unfolding contains
edges_into id_set item [] = []
edges_into id_set item (dep ∷ deps) =
    let rest = edges_into id_set item deps in
    if contains dep id_set then (dep, item) ∷ rest else rest

unfoldable pub edges_of : List String → List Fields → List Edge
unfolding edges_into dependencies field
edges_of id_set [] = []
edges_of id_set (f ∷ fs) =
    edges_into id_set (id_of f) (dependencies (field "depends_on" f)) ++ edges_of id_set fs

abbrev pub cycle_errors : Option String → List ValidationError
cycle_errors none = []
cycle_errors (some id) = circular id ∷ []

-- Step 7.
unfoldable pub params_of : Option Json → Fields
params_of none = no_field
params_of (some null) = no_field
params_of (some (boolean b)) = no_field
params_of (some (number n)) = no_field
params_of (some (text s)) = no_field
params_of (some (array js)) = no_field
params_of (some (object f)) = f

unfoldable pub credits_or_zero : Option Json → ℤ
credits_or_zero none = pos 0
credits_or_zero (some null) = pos 0
credits_or_zero (some (boolean b)) = pos 0
credits_or_zero (some (number n)) = n
credits_or_zero (some (text s)) = pos 0
credits_or_zero (some (array js)) = pos 0
credits_or_zero (some (object f)) = pos 0

unfoldable pub normalize : Fields → SubTask
unfolding params_of dependencies credits_or_zero field
normalize f = record {
  id = id_of f;
  description = or_blank (text_field "description" f);
  required_capability = or_blank (text_field "required_capability" f);
  params = params_of (field "params" f);
  depends_on = dependencies (field "depends_on" f);
  estimated_credits = credits_or_zero (field "estimated_credits" f);
}

abbrev pub with_errors : List ValidationError → ValidationResult
with_errors errs = record { valid = []; errors = errs }

-- Steps 5 to 7, with the errors of the steps before and the node that a cycle is found at.
unfoldable pub conclude : List ValidationError → List Fields → Option String → ValidationResult
conclude errs items cycle =
    let all_errors =
      errs ++ (if is_empty errs && not (is_empty items) then cycle_errors cycle else []) in
    if is_empty all_errors
    then record { valid = map normalize items; errors = [] }
    else with_errors all_errors

-- Steps 3 to 7 on the items of step 2.
unfoldable pub check_plan : List ValidationError → List Fields → ValidationResult
check_plan found items =
    let ids = map id_of items in
    let (dups, id_set) = duplicates ids [] in
    conclude (found ++ (dups ++ unknown_dependencies id_set 0 items)) items
      (find_cycle ids (edges_of id_set items))

-- Steps 1 and 2; an array without entries is valid.
unfoldable pub validate_elements : ℕ → List Json → ValidationResult
unfolding check_items check_plan
validate_elements max [] = with_errors []
validate_elements max (j ∷ js) =
    let (found, items) = check_items max 0 (j ∷ js) in check_plan found items

unfoldable pub validate_and_normalize_subtasks : Json → ℕ → ValidationResult
unfolding elements_of validate_elements
validate_and_normalize_subtasks null max = with_errors (not_array ∷ [])
validate_and_normalize_subtasks (boolean b) max = with_errors (not_array ∷ [])
validate_and_normalize_subtasks (number n) max = with_errors (not_array ∷ [])
validate_and_normalize_subtasks (text s) max = with_errors (not_array ∷ [])
validate_and_normalize_subtasks (array js) max = validate_elements max (elements_of js)
validate_and_normalize_subtasks (object f) max = with_errors (not_array ∷ [])
