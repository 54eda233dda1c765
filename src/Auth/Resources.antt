-- ===== src/Auth/Resources.antt =====
-- src/auth/ucan-resources.ts: `agentbnb://` resource URIs, their patterns and their attenuation.
-- An index into an array of segments is the rest of the list from that index on.
pub mod Meaning
pub mod Parsing
pub mod Attenuation
use agentbnb.Prelude.{
  ℕ, Bool, true, false, List, [], ◌∷◌, Text, codes, same_text, split_on, Option, none, some, ◌==◌,
  if◌then◌else◌,
}

pub record ParsedResource : Type 0 where
  pub resource_type : Text
  pub path : Text

-- `uri.startsWith(prefix)` and the slice behind the prefix, in one.
unfoldable pub strip_prefix : Text → Text → Option Text
strip_prefix [] s = some s
strip_prefix (p ∷ ps) [] = none
strip_prefix (p ∷ ps) (c ∷ s) = let rest = strip_prefix ps s in if p == c then rest else none

-- `body.indexOf('/')` with the two slices: the part before the first slash, and the part behind it.
unfoldable pub cut_at_slash : Text → Text × Option Text
cut_at_slash [] = ([], none)
cut_at_slash (c ∷ s) =
    let (before, behind) = cut_at_slash s in
    if c == b'/' then ([], some s) else (c ∷ before, behind)

-- What `parseResource` makes of the two slices; `none` is the exception INVALID_RESOURCE_URI.
unfoldable pub from_slices : Text → Text × Option Text → Option ParsedResource
from_slices body (before, none) = some (record { resource_type = body; path = [] })
from_slices body ([], some path) = none
from_slices body (c ∷ before, some path) = some (record { resource_type = c ∷ before; path = path })

unfoldable pub parse_body : Text → Option ParsedResource
unfolding cut_at_slash from_slices
parse_body [] = none
parse_body (c ∷ s) = from_slices (c ∷ s) (cut_at_slash (c ∷ s))

abbrev pub uri_prefix : Text
uri_prefix = codes "agentbnb://"

abbrev pub parse_rest : Option Text → Option ParsedResource
parse_rest none = none
parse_rest (some body) = parse_body body

unfoldable pub parse_resource : Text → Option ParsedResource
unfolding strip_prefix parse_body
parse_resource uri = parse_rest (strip_prefix uri_prefix uri)

-- `.filter((s) => s.length > 0)`.
unfoldable pub drop_empty : List Text → List Text
drop_empty [] = []
drop_empty ([] ∷ parts) = drop_empty parts
drop_empty ((c ∷ part) ∷ parts) = (c ∷ part) ∷ drop_empty parts

-- The special case of the empty path is that of the text with no segment.
unfoldable pub split_path : Text → List Text
unfolding split_on drop_empty
split_path [] = []
split_path (c ∷ s) = drop_empty (split_on b'/' (c ∷ s))

abbrev pub is_globstar : Text → Bool
is_globstar s = same_text s (codes "**")

abbrev pub is_star : Text → Bool
is_star s = same_text s (codes "*")

unfoldable pub match_segments : List Text → List Text → Bool
match_segments [] [] = true
match_segments [] (t ∷ ts) = false
match_segments (s ∷ ps) [] =
    let skip = match_segments ps [] in if is_globstar s then skip else false
match_segments (s ∷ ps) (t ∷ ts) =
    let skip = match_segments ps (t ∷ ts) in
    let absorb = match_segments (s ∷ ps) ts in
    let one = match_segments ps ts in
    if is_globstar s
    then if skip then true else absorb
    else if is_star s
    then one
    else if same_text s t
    then one
    else false

unfoldable pub match_parsed : ParsedResource → ParsedResource → Bool
unfolding match_segments split_path
match_parsed pat tgt =
    if same_text pat.resource_type tgt.resource_type
    then match_segments (split_path pat.path) (split_path tgt.path)
    else false

-- `none` where a URI does not parse.
abbrev pub on_both {ℓ} :
    {A : Type ℓ}
    → (ParsedResource → ParsedResource → A)
    → Option ParsedResource
    → Option ParsedResource
    → Option A
on_both f none q = none
on_both f (some p) none = none
on_both f (some p) (some q) = some (f p q)

unfoldable pub match_resource : Text → Text → Option Bool
unfolding parse_resource match_parsed
match_resource pattern target =
    on_both match_parsed (parse_resource pattern) (parse_resource target)

unfoldable pub is_sub_pattern : List Text → List Text → Bool
is_sub_pattern [] [] = true
is_sub_pattern [] (n ∷ ns) = false
is_sub_pattern (b ∷ bs) [] =
    let skip = is_sub_pattern bs [] in if is_globstar b then skip else false
is_sub_pattern (b ∷ bs) (n ∷ ns) =
    let skip = is_sub_pattern bs (n ∷ ns) in
    let absorb = is_sub_pattern (b ∷ bs) ns in
    let one = is_sub_pattern bs ns in
    if is_globstar b
    then if skip then true else absorb
    else if is_star b
    then if is_globstar n then false else one
    else if is_globstar n
    then false
    else if is_star n
    then false
    else if same_text b n
    then one
    else false

unfoldable pub attenuates : ParsedResource → ParsedResource → Bool
unfolding is_sub_pattern split_path
attenuates orig narr =
    if same_text orig.resource_type narr.resource_type
    then is_sub_pattern (split_path orig.path) (split_path narr.path)
    else false

unfoldable pub is_attenuation : Text → Text → Option Bool
unfolding parse_resource attenuates
is_attenuation original narrowed =
    on_both attenuates (parse_resource original) (parse_resource narrowed)
