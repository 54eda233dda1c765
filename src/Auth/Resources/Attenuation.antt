-- ===== src/Auth/Resources/Attenuation.antt =====
-- The attenuation check against the meaning of patterns: what it accepts is no broader.
use agentbnb.Prelude.{
  ◌≡◌, refl, sym, inl, inr, true, false, List, [], ◌∷◌, ◌++◌, arith, Text, same_text→eq,
  same_text_refl, Bool-cases, subst,
}
use agentbnb.Auth.Resources.{
  ParsedResource, is_globstar, is_star, match_segments, is_sub_pattern, attenuates, match_parsed,
  split_path,
}
use agentbnb.Auth.Resources.Meaning.{
  globstar, star, literal, kind, Stands, any_segments, one_segment, itself, absorb-Stands,
  match_segments_iff,
}

absorb_front :
    {s : Text} {ps rest : List Text} (front : List Text)
    → is_globstar s ≡ true
    → Stands (s ∷ ps) rest
    → Stands (s ∷ ps) (front ++ rest)
absorb_front [] g m = m
absorb_front (t ∷ front) g m = absorb-Stands t g (absorb_front front g m)

-- The three ways in which a broader pattern follows one segment of a narrower one.
globstar_covers :
    {b n : Text} {bs ns ts : List Text}
    → is_globstar b ≡ true
    → ((us : List Text) → Stands ns us → Stands (b ∷ bs) us)
    → Stands (n ∷ ns) ts
    → Stands (b ∷ bs) ts
globstar_covers g ih (any_segments {rest = rest} front ts _ e m) =
    rw e (absorb_front front g (ih rest m))
globstar_covers g ih (one_segment {ts = ts} t _ _ m) = absorb-Stands t g (ih ts m)
globstar_covers g ih (itself {s} {ts = ts} _ _ m) = absorb-Stands s g (ih ts m)

star_covers :
    {b n : Text} {bs ns ts : List Text}
    → is_globstar b ≡ false
    → is_star b ≡ true
    → is_globstar n ≡ false
    → ((us : List Text) → Stands ns us → Stands bs us)
    → Stands (n ∷ ns) ts
    → Stands (b ∷ bs) ts
star_covers g e k ih (any_segments front ts k' _ m) = cc
star_covers g e k ih (one_segment {ts = ts} t _ _ m) = one_segment t g e (ih ts m)
star_covers g e k ih (itself {s} {ts = ts} _ _ m) = one_segment s g e (ih ts m)

literal_covers :
    {b n : Text} {bs ns ts : List Text}
    → is_globstar b ≡ false
    → is_star b ≡ false
    → b ≡ n
    → ((us : List Text) → Stands ns us → Stands bs us)
    → Stands (n ∷ ns) ts
    → Stands (b ∷ bs) ts
literal_covers g e k ih (any_segments front ts k' _ m) = absurd (ground arith)
literal_covers g e k ih (one_segment {ts = ts} t _ e' m) = absurd (ground arith)
literal_covers {bs = bs} g e k ih (itself {s} {ts = ts} literal_s plain_s m) =
    subst (λ u. Stands (u ∷ bs) (s ∷ ts)) (sym k) (itself literal_s plain_s (ih ts m))

pub is_sub_pattern-Stands :
    (bs ns ts : List Text) → is_sub_pattern bs ns ≡ true → Stands ns ts → Stands bs ts
unfolding is_sub_pattern
is_sub_pattern-Stands [] [] ts h m = m
is_sub_pattern-Stands [] (n ∷ ns) ts h m = cc
is_sub_pattern-Stands (b ∷ bs) [] ts h m = elim (Bool-cases (is_globstar b)) [
  | inl g ↦ any_segments [] ts g refl (is_sub_pattern-Stands bs [] ts (ground arith) m)
  | inr g ↦ absurd (ground arith)
]
is_sub_pattern-Stands (b ∷ bs) (n ∷ ns) ts h m = elim (kind b) [
  | globstar g ↦ elim (Bool-cases (is_sub_pattern bs (n ∷ ns))) [
    | inl skip ↦ any_segments [] ts g refl (is_sub_pattern-Stands bs (n ∷ ns) ts skip m)
    | inr stay ↦ globstar_covers g (λ us. is_sub_pattern-Stands (b ∷ bs) ns us (ground arith)) m
  ]
  | star g e ↦
      star_covers g e (ground arith) (λ us. is_sub_pattern-Stands bs ns us (ground arith)) m
  | literal g e ↦
      literal_covers g e (same_text→eq b n (ground arith))
        (λ us. is_sub_pattern-Stands bs ns us (ground arith)) m
]

is_sub_pattern-skip :
    (p : Text) (ps ns : List Text)
    → is_globstar p ≡ true
    → is_sub_pattern ps ns ≡ true
    → is_sub_pattern (p ∷ ps) ns ≡ true
unfolding is_sub_pattern
is_sub_pattern-skip p ps [] g h = ground arith
is_sub_pattern-skip p ps (n ∷ ns) g h = ground arith

is_sub_pattern-match :
    (bs ns ts : List Text)
    → is_sub_pattern bs ns ≡ true
    → match_segments ns ts ≡ true
    → match_segments bs ts ≡ true
is_sub_pattern-match bs ns ts h m =
    (match_segments_iff bs ts).1 (is_sub_pattern-Stands bs ns ts h ((match_segments_iff ns ts).0 m))

-- Every pattern is a sub-pattern of itself.
pub is_sub_pattern_refl : (ps : List Text) → is_sub_pattern ps ps ≡ true
unfolding is_sub_pattern
is_sub_pattern_refl [] = refl
is_sub_pattern_refl (p ∷ ps) =
    ground (arith, same_text_refl p, is_sub_pattern_refl ps, is_sub_pattern-skip p ps ps)

-- A narrowed scope that the check accepts matches no target that the original does not match.
pub attenuates-match_parsed :
    (orig narr tgt : ParsedResource)
    → attenuates orig narr ≡ true
    → match_parsed narr tgt ≡ true
    → match_parsed orig tgt ≡ true
unfolding attenuates match_parsed
attenuates-match_parsed orig narr tgt h m = ground (
  arith,
  same_text→eq orig.resource_type narr.resource_type,
  is_sub_pattern-match (split_path orig.path) (split_path narr.path) (split_path tgt.path),
)
