-- ===== src/Relay/Price/Floor.antt =====
-- The floor of the prices of a card (`lookupCardPrice` of src/relay/relay-credit.ts).
use agentbnb.Prelude.{
  ◌≡◌, ◌⊎◌, refl, sym, subst, ◌∙◌, true, false, List, [], ◌∷◌, Option, none, some, ℤ, pos, negsuc,
  is_positive, leb_ℤ, arith, inl, inr, Bool-cases, Option-cases, All,
}
use agentbnb.Conductor.Json.{Json}
use agentbnb.Relay.Price.{skill_price, min_price, lower, price_by_skills}

some_injective : {A : Type 0} {a b : A} → some a ≡ some b → a ≡ b
some_injective h = cc

leb_ℤ-refl : (a : ℤ) → leb_ℤ a a ≡ true
leb_ℤ-refl (pos n) = ground arith
leb_ℤ-refl (negsuc n) = ground arith

leb_ℤ-trans : (a b c : ℤ) → leb_ℤ a b ≡ true → leb_ℤ b c ≡ true → leb_ℤ a c ≡ true
leb_ℤ-trans a b c h k = ground (arith, h, k)

-- The lower of the two is at most either, and positive if both are.
lower-least :
    (m p : ℤ)
    → (leb_ℤ (lower (some m) p) m ≡ true)
      × (leb_ℤ (lower (some m) p) p ≡ true)
      × (is_positive m ≡ true → is_positive p ≡ true → is_positive (lower (some m) p) ≡ true)
lower-least m p = elim (Bool-cases (leb_ℤ m p)) [
  | inl e ↦ rw e (leb_ℤ-refl m, e, λ h k. h)
  | inr e ↦ rw e (ground (arith, e), leb_ℤ-refl p, λ h k. k)
]

-- A positive price of the skill is not below the floor.
abbrev pub IsAbove : ℤ → Json → Type 0
IsAbove floor s = (p : ℤ) → skill_price s ≡ some p → is_positive p ≡ true → leb_ℤ floor p ≡ true

min_price-some :
    (m : ℤ) (skills : List Json)
    → is_positive m ≡ true
    → (floor : ℤ) × (min_price (some m) skills ≡ some floor)
      × (is_positive floor ≡ true)
      × (leb_ℤ floor m ≡ true)
      × All (IsAbove floor) skills
unfolding min_price
min_price-some m [] h = (m, refl, h, leb_ℤ-refl m, tt)
min_price-some m (s ∷ rest) h = elim (Option-cases (skill_price s)) [
  | inl e ↦
      let (floor, found, positive, below, above) = min_price-some m rest h in
      rw (e, min_price)
        (floor, found, positive, below, ((λ p f q. absurd (ground (arith, e, f))), above))
  | inr (p, e) ↦ elim (Bool-cases (is_positive p)) [
    | inr b ↦
        let (floor, found, positive, below, above) = min_price-some m rest h in
        rw (e, b, min_price)
          (floor, found, positive, below, ((λ r f q. absurd (ground (arith, e, f, b, q))), above))
    | inl b ↦
        let (le_m, le_p, both) = lower-least m p in
        let (floor, found, positive, below, above) =
          min_price-some (lower (some m) p) rest (both h b) in
        rw (e, b, min_price)
          (
            floor,
            found,
            positive,
            leb_ℤ-trans floor _ m below le_m,
            (
              (λ r f q.
                  leb_ℤ-trans floor _ r below
                    (subst (λ x. leb_ℤ (lower (some m) p) x ≡ true) (some_injective f) le_p)),
              above,
            ),
          )
  ]
]

-- The skill costs nothing that is known.
abbrev pub IsFree : Json → Type 0
IsFree s = (p : ℤ) → skill_price s ≡ some p → is_positive p ≡ false

-- A price that no positive price of a skill is below, or none where no skill has one.
abbrev pub IsFloor : List Json → Option ℤ → Type 0
IsFloor skills o =
    ((o ≡ none) × All IsFree skills)
    ⊎ ((floor : ℤ) × (o ≡ some floor) × (is_positive floor ≡ true) × All (IsAbove floor) skills)

beside :
    (s : Json) (rest : List Json) (o : Option ℤ)
    → IsFree s
    → ((floor : ℤ) → IsAbove floor s)
    → IsFloor rest o
    → IsFloor (s ∷ rest) o
beside s rest o free above (inl (e, all_free)) = inl (e, (free, all_free))
beside s rest o free above (inr (floor, e, positive, all_above)) =
    inr (floor, e, positive, (above floor, all_above))

-- A skill without a positive price is passed over, one with a positive price is taken in.
passed_over :
    (s : Json) (rest : List Json)
    → IsFree s
    → price_by_skills none (s ∷ rest) ≡ price_by_skills none rest
unfolding price_by_skills min_price
passed_over s rest free = elim (Option-cases (skill_price s)) [
  | inl e ↦ rw (e, min_price, price_by_skills) refl
  | inr (p, e) ↦ rw (e, free p e, min_price, price_by_skills) refl
]

taken_in :
    (s : Json) (rest : List Json) (p : ℤ)
    → skill_price s ≡ some p
    → is_positive p ≡ true
    → price_by_skills none (s ∷ rest) ≡ min_price (some p) rest
unfolding price_by_skills min_price
taken_in s rest p e b = rw (e, b, min_price, price_by_skills) refl

pass :
    (s : Json) (rest : List Json)
    → IsFree s
    → IsFloor rest (price_by_skills none rest)
    → IsFloor (s ∷ rest) (price_by_skills none (s ∷ rest))
pass s rest free h =
    subst (IsFloor (s ∷ rest)) (sym (passed_over s rest free))
      (beside s rest _ free (λ floor p f q. absurd (ground (arith, free p f, q))) h)

-- The skills of a card, without the choice of one, are priced at a positive price that none of their positive
-- prices is below, and are without a price only if none of them has a positive price.
pub price_by_skills-IsFloor : (skills : List Json) → IsFloor skills (price_by_skills none skills)
unfolding price_by_skills min_price
price_by_skills-IsFloor [] = inl (refl, tt)
price_by_skills-IsFloor (s ∷ rest) = elim (Option-cases (skill_price s)) [
  | inl e ↦ pass s rest (λ p f. absurd (ground (arith, e, f))) (price_by_skills-IsFloor rest)
  | inr (p, e) ↦ elim (Bool-cases (is_positive p)) [
    | inl b ↦
        let (floor, found, positive, below, above) = min_price-some p rest b in
        inr (
          floor,
          taken_in s rest p e b ∙ found,
          positive,
          ((λ r f q. subst (λ x. leb_ℤ floor x ≡ true) (some_injective (sym e ∙ f)) below), above),
        )
    | inr b ↦
        pass s rest (λ r f. subst (λ x. is_positive x ≡ false) (some_injective (sym e ∙ f)) b)
          (price_by_skills-IsFloor rest)
  ]
]
