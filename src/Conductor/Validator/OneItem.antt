-- ===== src/Conductor/Validator/OneItem.antt =====
-- The fields of one item: no errors means a sound task, and a printed task reads back.
use mathlib.Core.List.{append-eq-nil_iff}
use agentbnb.Prelude.{
  ℕ, ◌≤◌, ◌≡◌, ◌≢◌, refl, String, Option, none, some, List, [], ◌∷◌, map, ℤ, pos, negsuc, suc, zero,
  str_eq_iff, arith, ap, ◌∙◌,
}
use agentbnb.Conductor.Json.{
  Json, null, boolean, number, text, array, object, Fields, field, elements_of, elements,
}
use agentbnb.Conductor.Validator.{
  SubTask, ValidationError, bad_id, bad_description, bad_capability, or_blank, unless_named,
  credit_errors, field_errors, credits_or_zero, strings_of, dependencies, params_of, normalize,
  text_field,
}
use agentbnb.Conductor.Validator.Plan.{IsTask, to_fields, credits_field}

named_text : (v : Option String) (e : ValidationError) → unless_named v e ≡ [] → or_blank v ≢ ""
named_text none e h p = ground (arith, h)
named_text (some s) e h p = ground (arith, h, p, str_eq_iff s "")

sound_credits :
    (max i : ℕ) (v : Option Json)
    → credit_errors max i v ≡ []
    → (n : ℕ) × (credits_or_zero v ≡ pos n) × (n ≤ max)
unfolding credit_errors credits_or_zero
sound_credits max i none h = (0, refl, omega arith)
sound_credits max i (some null) h = ground (arith, h)
sound_credits max i (some (boolean b)) h = ground (arith, h)
sound_credits max i (some (number (pos n))) h = (n, refl, ground (arith, h))
sound_credits max i (some (number (negsuc n))) h = ground (arith, h)
sound_credits max i (some (text s)) h = ground (arith, h)
sound_credits max i (some (array js)) h = ground (arith, h)
sound_credits max i (some (object f)) h = ground (arith, h)

pub field_errors-IsTask :
    (max i : ℕ) (f : Fields) → field_errors max i f ≡ [] → IsTask max (normalize f)
unfolding field_errors normalize
field_errors-IsTask max i f h =
    let a = append-eq-nil_iff.0 h in
    let b = append-eq-nil_iff.0 a.1 in
    let c = append-eq-nil_iff.0 b.1 in
    let (n, e, le) = sound_credits max i (field "estimated_credits" f) c.1 in
    record {
      has_id = named_text (text_field "id" f) _ a.0;
      has_description = named_text (text_field "description" f) _ b.0;
      has_capability = named_text (text_field "required_capability" f) _ c.0;
      credits = n;
      credits_whole = e;
      credits_within = le;
    }

strings-elements : (ss : List String) → strings_of (elements_of (elements (map text ss))) ≡ ss
unfolding strings_of elements_of elements
strings-elements [] = refl
strings-elements (s ∷ ss) = ap (λ rest. s ∷ rest) (strings-elements ss)

credits-field : (n : ℤ) → credits_or_zero (field "estimated_credits" (credits_field n)) ≡ n
unfolding credits_or_zero field
credits-field (pos zero) = refl
credits-field (pos (suc n)) = refl
credits-field (negsuc n) = refl

pub normalize-to_fields : (t : SubTask) → normalize (to_fields t) ≡ t
unfolding normalize field params_of dependencies
normalize-to_fields t =
    ap
      (λ ds. record t {
        depends_on = ds;
        estimated_credits =
            credits_or_zero (field "estimated_credits" (credits_field t.estimated_credits));
      })
      (strings-elements t.depends_on)
    ∙ ap (λ n. record t { estimated_credits = n }) (credits-field t.estimated_credits)

pub dependencies-to_fields :
    (t : SubTask) → dependencies (field "depends_on" (to_fields t)) ≡ t.depends_on
unfolding field dependencies
dependencies-to_fields t = strings-elements t.depends_on

clean_text : (s : String) (e : ValidationError) → s ≢ "" → unless_named (some s) e ≡ []
clean_text s e h = ground (arith, h, str_eq_iff s "")

clean_credits :
    (max i : ℕ) (n : ℤ) (k : ℕ)
    → n ≡ pos k
    → k ≤ max
    → credit_errors max i (field "estimated_credits" (credits_field n)) ≡ []
unfolding credit_errors field
clean_credits max i (pos zero) k e le = refl
clean_credits max i (pos (suc n)) k e le = ground (arith, e, le)
clean_credits max i (negsuc n) k e le = ground (arith, e)

pub field_errors-to_fields :
    (max i : ℕ) (t : SubTask) → IsTask max t → field_errors max i (to_fields t) ≡ []
unfolding field_errors field
field_errors-to_fields max i t s = ground (
  arith,
  clean_text t.id (bad_id i) s.has_id,
  clean_text t.description (bad_description i) s.has_description,
  clean_text t.required_capability (bad_capability i) s.has_capability,
  clean_credits max i t.estimated_credits s.credits s.credits_whole s.credits_within,
)
