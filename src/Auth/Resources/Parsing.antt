-- ===== src/Auth/Resources/Parsing.antt =====
-- Resource URIs written out and read back (src/auth/ucan-resources.ts, `parseResource`).
use agentbnb.Prelude.{ℕ, ◌≡◌, refl, ap, ◌∙◌, [], ◌∷◌, ◌++◌, none, some, arith, Text, Lacks}
use agentbnb.Auth.Resources.{
  strip_prefix, cut_at_slash, from_slices, parse_body, parse_resource, parse_rest, uri_prefix,
}

strip_prefix-append : (p s : Text) → strip_prefix p (p ++ s) ≡ some s
unfolding strip_prefix
strip_prefix-append [] s = refl
strip_prefix-append (c ∷ p) s = ground (arith, strip_prefix-append p s)

cut_at_slash-append : (a b : Text) → Lacks b'/' a → cut_at_slash (a ++ b'/' ∷ b) ≡ (a, some b)
unfolding cut_at_slash
cut_at_slash-append [] b h = ground arith
cut_at_slash-append (c ∷ a) b h = ground (arith, cut_at_slash-append a b h.1)

cut_at_slash-Lacks : (a : Text) → Lacks b'/' a → cut_at_slash a ≡ (a, none)
unfolding cut_at_slash
cut_at_slash-Lacks [] h = refl
cut_at_slash-Lacks (c ∷ a) h = ground (arith, cut_at_slash-Lacks a h.1)

-- A resource type that is not empty and has no slash is read back from the URI, with any path behind a
-- slash, and with the empty path where the URI ends with the type.
pub parse_resource-uri :
    (c : ℕ) (t path : Text)
    → Lacks b'/' (c ∷ t)
    → (parse_resource (uri_prefix ++ (c ∷ t) ++ b'/' ∷ path)
        ≡ some (record { resource_type = c ∷ t; path = path }))
      × (parse_resource (uri_prefix ++ c ∷ t) ≡ some (record { resource_type = c ∷ t; path = [] }))
unfolding parse_resource parse_body from_slices
parse_resource-uri c t path h = (
  ap parse_rest (strip_prefix-append uri_prefix ((c ∷ t) ++ b'/' ∷ path))
      ∙ ap (from_slices ((c ∷ t) ++ b'/' ∷ path)) (cut_at_slash-append (c ∷ t) path h),
  ap parse_rest (strip_prefix-append uri_prefix (c ∷ t))
      ∙ ap (from_slices (c ∷ t)) (cut_at_slash-Lacks (c ∷ t) h),
)
