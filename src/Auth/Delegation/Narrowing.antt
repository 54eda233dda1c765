-- ===== src/Auth/Delegation/Narrowing.antt =====
-- What the narrowing check means, and that it composes (src/auth/ucan-delegation.ts).
use agentbnb.Prelude.{
  ℕ, ◌≡◌, refl, inl, inr, true, false, String, List, [], ◌∷◌, Option, none, some, arith, Text,
  Member, subst, str_eq_iff, Option-cases,
}
use agentbnb.Auth.Resources.{
  ParsedResource, parse_resource, is_attenuation, match_resource, attenuates, match_parsed, on_both,
}
use agentbnb.Auth.Resources.Attenuation.{attenuates-match_parsed}
use agentbnb.Auth.Token.{Attenuation}
use agentbnb.Auth.Delegation.{
  action_level, action_narrowed, compare_levels, is_narrowed, some_narrowed, is_attenuation_subset,
}

-- Every target that the child's resource matches is matched by the parent's, and the child's action
-- is no broader than the parent's.
pub record Covers (parent child : Attenuation) : Type 0 where
  pub resource :
      (target : Text)
      → match_resource child.resource target ≡ some true
      → match_resource parent.resource target ≡ some true
  pub action : action_narrowed parent.can child.can ≡ true

parsed_attenuation :
    (o n t : Option ParsedResource)
    → on_both attenuates o n ≡ some true
    → on_both match_parsed n t ≡ some true
    → on_both match_parsed o t ≡ some true
parsed_attenuation none n t h m = cc
parsed_attenuation (some o) none t h m = cc
parsed_attenuation (some o) (some n) none h m = cc
parsed_attenuation (some o) (some n) (some t) h m = ground (arith, attenuates-match_parsed o n t)

-- A URI that the check accepts as an attenuation matches no target that the original does not match.
pub is_attenuation_sound :
    (original narrowed target : Text)
    → is_attenuation original narrowed ≡ some true
    → match_resource narrowed target ≡ some true
    → match_resource original target ≡ some true
unfolding is_attenuation match_resource
is_attenuation_sound o n t h m =
    parsed_attenuation (parse_resource o) (parse_resource n) (parse_resource t) h m

compare_levels_trans :
    (a b c : String) (x y z : Option ℕ)
    → (a ≡ b → x ≡ y)
    → (b ≡ c → y ≡ z)
    → compare_levels a b x y ≡ true
    → compare_levels b c y z ≡ true
    → compare_levels a c x z ≡ true
compare_levels_trans a b c x y z e f h k =
    ground (arith, str_eq_iff a b, str_eq_iff b c, str_eq_iff a c)

-- Narrowing of actions is transitive, unknown actions included.
pub action_narrowed_trans :
    (a b c : String)
    → action_narrowed a b ≡ true
    → action_narrowed b c ≡ true
    → action_narrowed a c ≡ true
unfolding action_narrowed
action_narrowed_trans a b c h k =
    compare_levels_trans a b c (action_level a) (action_level b) (action_level c) (λ e. cc)
      (λ e. cc) h k

pub Covers-trans : {a b c : Attenuation} → Covers a b → Covers b c → Covers a c
Covers-trans {a} {b} {c} f g = record {
  resource = λ t h. f.resource t (g.resource t h);
  action = action_narrowed_trans a.can b.can c.can f.action g.action;
}

pub is_narrowed-Covers : (p c : Attenuation) → is_narrowed p c ≡ some true → Covers p c
unfolding is_narrowed
is_narrowed-Covers p c h = record {
  resource = λ t m. is_attenuation_sound p.resource c.resource t (ground arith) m;
  action = ground arith;
}

pub some_narrowed-Covers :
    (ps : List Attenuation) (c : Attenuation)
    → some_narrowed ps c ≡ some true
    → (p : Attenuation) × Member p ps × Covers p c
unfolding some_narrowed
some_narrowed-Covers [] c h = cc
some_narrowed-Covers (p ∷ ps) c h = elim (Option-cases (is_narrowed p c)) [
  | inl e ↦ absurd (ground arith)
  | inr (true, e) ↦ (p, inl refl, is_narrowed-Covers p c e)
  | inr (false, e) ↦ let (q, m, f) = some_narrowed-Covers ps c (ground arith) in (q, inr m, f)
]

-- A list of attenuations that is accepted as a subset is covered entry by entry.
pub is_attenuation_subset-Covers :
    (ps cs : List Attenuation) (c : Attenuation)
    → is_attenuation_subset ps cs ≡ some true
    → Member c cs
    → (p : Attenuation) × Member p ps × Covers p c
unfolding is_attenuation_subset
is_attenuation_subset-Covers ps [] c h m = absurd m
is_attenuation_subset-Covers ps (x ∷ cs) c h (inl e) =
    some_narrowed-Covers ps c (subst (λ y. some_narrowed ps y ≡ some true) e (ground arith))
is_attenuation_subset-Covers ps (x ∷ cs) c h (inr m) =
    is_attenuation_subset-Covers ps cs c (ground arith) m
