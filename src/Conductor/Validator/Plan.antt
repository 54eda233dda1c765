-- ===== src/Conductor/Validator/Plan.antt =====
-- What a decomposition must be, said without the algorithm that checks it, and how one is printed.
use agentbnb.Prelude.{
  ℕ, ◌≤◌, ◌<◌, ◌≡◌, ◌≢◌, String, List, map, ℤ, pos, negsuc, suc, zero, All, occurrences, IsDistinct,
}
use agentbnb.Conductor.Json.{Json, number, text, array, object, Fields, no_field, member, elements}
use agentbnb.Conductor.Validator.{SubTask}

-- The texts are not empty, and the credits are within the ceiling.
pub record IsTask (max : ℕ) (t : SubTask) : Type 0 where
  pub has_id : t.id ≢ ""
  pub has_description : t.description ≢ ""
  pub has_capability : t.required_capability ≢ ""
  pub credits : ℕ
  pub credits_whole : t.estimated_credits ≡ pos credits
  pub credits_within : credits ≤ max

abbrev pub ids_of : List SubTask → List String
ids_of ts = map (λ t. t.id) ts

-- `P` holds of every dependency and the task that waits for it.
abbrev pub Dependencies : (String → String → Type 0) → List SubTask → Type 0
Dependencies P ts = All (λ t. All (λ dep. P dep t.id) t.depends_on) ts

-- Every dependency is one of the tasks, and the tasks can be numbered so that a dependency always
-- has a smaller number.
pub record IsPlan (max : ℕ) (ts : List SubTask) : Type 0 where
  pub tasks : All (IsTask max) ts
  pub distinct : IsDistinct (ids_of ts)
  pub closed : Dependencies (λ dep id. 0 < occurrences dep (ids_of ts)) ts
  pub rank : String → ℕ
  pub acyclic : Dependencies (λ dep id. rank dep < rank id) ts

-- A task as JSON: no field for credits that are zero.
abbrev pub credits_field : ℤ → Fields
credits_field (pos zero) = no_field
credits_field (pos (suc n)) = member "estimated_credits" (number (pos (suc n))) no_field
credits_field (negsuc n) = member "estimated_credits" (number (negsuc n)) no_field

abbrev pub to_fields : SubTask → Fields
to_fields t = member "id" (text t.id) (
    member "description" (text t.description) (
      member "required_capability" (text t.required_capability) (
        member "params" (object t.params) (
          member "depends_on" (array (elements (map text t.depends_on)))
            (credits_field t.estimated_credits)))))

abbrev pub to_json : List SubTask → Json
to_json ts = array (elements (map (λ t. object (to_fields t)) ts))
