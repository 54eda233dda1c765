-- ===== src/Relay/Price.antt =====
-- `lookupCardPrice` (src/relay/relay-credit.ts): the price of a call by the card that is stored. A stored
-- card holds the members of its JSON object, or `none` where the text does not parse; prices are whole.
pub mod Floor
use agentbnb.Prelude.{
  Bool, true, false, String, List, [], ◌∷◌, Option, none, some, ℤ, is_positive, leb_ℤ, not, str_eq,
  if◌then◌else◌,
}
use agentbnb.Credit.Table.{select_first}
use agentbnb.Conductor.Json.{Json, text, number, array, object, Fields, elements_of, field}

pub record CardRow : Type 0 where
  pub id : String
  pub owner : String
  pub content : Option Fields

-- A member of a value, which is `undefined` on what is no object.
abbrev pub member_of : String → Json → Option Json
member_of k (object fields) = field k fields
member_of k _ = none

abbrev pub a_number : Option Json → Option ℤ
a_number (some (number n)) = some n
a_number _ = none

-- `credits_per_call` of the `pricing` that is passed, if it is a number.
unfoldable pub credits_per_call : Option Json → Option ℤ
credits_per_call none = none
credits_per_call (some pricing) = a_number (member_of "credits_per_call" pricing)

unfoldable pub skill_price : Json → Option ℤ
unfolding credits_per_call
skill_price s = credits_per_call (member_of "pricing" s)

abbrev pub names : String → Option Json → Bool
names id (some (text t)) = str_eq t id
names id _ = false

-- `skills.find((s) => s.id === skillId)`.
unfoldable pub find_skill : String → List Json → Option Json
find_skill id [] = none
find_skill id (s ∷ rest) = if names id (member_of "id" s) then some s else find_skill id rest

abbrev pub lower : Option ℤ → ℤ → ℤ
lower none p = p
lower (some m) p = if not (leb_ℤ m p) then p else m

-- The loop over the skills, with `minPrice` so far.
unfoldable pub min_price : Option ℤ → List Json → Option ℤ
unfolding skill_price
min_price m [] = m
min_price m (s ∷ rest) = elim (skill_price s) [
  | none ↦ min_price m rest
  | some p ↦ if is_positive p then min_price (some (lower m p)) rest else min_price m rest
]

-- `skills` of a card, as far as they are an array.
abbrev pub skills_of : Fields → List Json
skills_of card = elim (field "skills" card) [ some (array js) ↦ elements_of js | _ ↦ [] ]

abbrev pub found_price : Option Json → Option ℤ
found_price none = none
found_price (some s) = skill_price s

-- The price by the skills of the card; an empty skill id counts as none.
unfoldable pub price_by_skills : Option String → List Json → Option ℤ
unfolding min_price find_skill
price_by_skills none skills = min_price none skills
price_by_skills (some id) skills =
    if str_eq id "" then min_price none skills else found_price (find_skill id skills)

abbrev pub or_else : Option ℤ → Option ℤ → Option ℤ
or_else none q = q
or_else (some p) q = some p

unfoldable pub card_price : Option String → Fields → Option ℤ
unfolding price_by_skills credits_per_call
card_price skill_id card =
    or_else (price_by_skills skill_id (skills_of card)) (credits_per_call (field "pricing" card))

unfoldable pub lookup_card_price : String → Option String → List CardRow → Option ℤ
unfolding card_price
lookup_card_price card_id skill_id cards = elim (select_first (λ r. str_eq r.id card_id) cards) [
  | none ↦ none
  | some row ↦ elim row.content [ none ↦ none | some card ↦ card_price skill_id card ]
]
