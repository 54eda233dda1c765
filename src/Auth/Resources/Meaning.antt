-- ===== src/Auth/Resources/Meaning.antt =====
-- What a pattern of segments stands for, apart from the way `match_segments` searches, and that the
-- search decides it.
use agentbnb.Prelude.{
  ◌≡◌, ◌↔◌, refl, ap, inl, inr, true, false, List, [], ◌∷◌, ◌++◌, arith, Text, same_text→eq,
  same_text_refl, Bool-cases, subst,
}
use agentbnb.Auth.Resources.{is_globstar, is_star, match_segments}

-- The three kinds of a segment, with their tests.
pub data Kind (s : Text) : Type 0 where
  globstar : is_globstar s ≡ true → Kind s
  star : is_globstar s ≡ false → is_star s ≡ true → Kind s
  literal : is_globstar s ≡ false → is_star s ≡ false → Kind s

pub kind : (s : Text) → Kind s
kind s = elim (Bool-cases (is_globstar s)) [
  | inl g ↦ globstar g
  | inr g ↦ elim (Bool-cases (is_star s)) [ inl t ↦ star g t | inr t ↦ literal g t ]
]

-- A segment `**` stands for any segments, `*` for any one, another for itself.
pub data Stands : List Text → List Text → Type 0 where
  end : Stands [] []
  any_segments :
      {s : Text} {ps : List Text} {rest : List Text} (front ts : List Text)
      → is_globstar s ≡ true
      → ts ≡ front ++ rest
      → Stands ps rest
      → Stands (s ∷ ps) ts
  one_segment :
      {s : Text} {ps : List Text} {ts : List Text} (t : Text)
      → is_globstar s ≡ false
      → is_star s ≡ true
      → Stands ps ts
      → Stands (s ∷ ps) (t ∷ ts)
  itself :
      {s : Text} {ps : List Text} {ts : List Text}
      → is_globstar s ≡ false
      → is_star s ≡ false
      → Stands ps ts
      → Stands (s ∷ ps) (s ∷ ts)

-- One more segment under a leading `**`.
pub absorb-Stands :
    {s : Text} {ps ts : List Text} (t : Text)
    → is_globstar s ≡ true
    → Stands (s ∷ ps) ts
    → Stands (s ∷ ps) (t ∷ ts)
absorb-Stands t g (any_segments front ts _ e m) =
    any_segments (t ∷ front) (t ∷ ts) g (ap (◌∷◌ t) e) m
absorb-Stands t g (one_segment u g' _ _) = cc
absorb-Stands t g (itself g' _ _) = cc

match_segments-Stands : (ps ts : List Text) → match_segments ps ts ≡ true → Stands ps ts
unfolding match_segments
match_segments-Stands [] [] h = end
match_segments-Stands [] (t ∷ ts) h = cc
match_segments-Stands (s ∷ ps) [] h = elim (Bool-cases (is_globstar s)) [
  | inl g ↦ any_segments [] [] g refl (match_segments-Stands ps [] (ground arith))
  | inr g ↦ absurd (ground arith)
]
match_segments-Stands (s ∷ ps) (t ∷ ts) h = elim (kind s) [
  | globstar g ↦ elim (Bool-cases (match_segments ps (t ∷ ts))) [
    | inl skip ↦ any_segments [] (t ∷ ts) g refl (match_segments-Stands ps (t ∷ ts) skip)
    | inr stay ↦ absorb-Stands t g (match_segments-Stands (s ∷ ps) ts (ground arith))
  ]
  | star g e ↦ one_segment t g e (match_segments-Stands ps ts (ground arith))
  | literal g e ↦
      subst (λ u. Stands (s ∷ ps) (u ∷ ts)) (same_text→eq s t (ground arith))
        (itself g e (match_segments-Stands ps ts (ground arith)))
]

-- A `**` in front matches whatever the rest matches behind any front.
match_segments-absorb :
    (s : Text) (ps front rest : List Text)
    → is_globstar s ≡ true
    → match_segments ps rest ≡ true
    → match_segments (s ∷ ps) (front ++ rest) ≡ true
unfolding match_segments
match_segments-absorb s ps [] [] g h = ground arith
match_segments-absorb s ps [] (t ∷ rest) g h = ground arith
match_segments-absorb s ps (t ∷ front) rest g h =
    ground (arith, match_segments-absorb s ps front rest g h)

Stands-match_segments : {ps ts : List Text} → Stands ps ts → match_segments ps ts ≡ true
unfolding match_segments
Stands-match_segments end = refl
Stands-match_segments (any_segments {s} {ps} {rest} front ts g e m) =
    rw e (match_segments-absorb s ps front rest g (Stands-match_segments m))
Stands-match_segments (one_segment t g e m) = ground (arith, Stands-match_segments m)
Stands-match_segments (itself {s} g e m) = ground (arith, Stands-match_segments m, same_text_refl s)

-- The matcher says yes to exactly the segments that the pattern stands for.
pub match_segments_iff : (ps ts : List Text) → (match_segments ps ts ≡ true) ↔ Stands ps ts
match_segments_iff ps ts = (match_segments-Stands ps ts, Stands-match_segments)
