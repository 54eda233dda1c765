-- ===== src/Auth/Delegation.antt =====
-- src/auth/ucan-delegation.ts: narrowing of permissions along a chain of tokens.
pub mod Narrowing
pub mod Chain
use agentbnb.Prelude.{
  ℕ, zero, suc, ◌+◌, ◌-◌, min, Bool, true, false, not, String, List, [], ◌∷◌, Option, none, some,
  Text, str_eq, ltb, leb, length, if◌then◌else◌,
}
use agentbnb.Auth.Resources.{is_attenuation}
use agentbnb.Auth.Token.{
  Codec, Attenuation, Payload, Verdict, valid, invalid, Reason, VerifyOptions, is_less, decode_ucan,
  verify_ucan,
}

abbrev pub max_chain_depth : ℕ
max_chain_depth = 3

-- `ACTION_HIERARCHY[action]`; the names that every JavaScript object inherits are left aside.
unfoldable pub action_level : String → Option ℕ
action_level a =
    if str_eq a "delegate"
    then some 4
    else if str_eq a "write"
    then some 3
    else if str_eq a "settle"
    then some 2
    else if str_eq a "invoke"
    then some 1
    else if str_eq a "read"
    then some 0
    else none

abbrev pub compare_levels : String → String → Option ℕ → Option ℕ → Bool
compare_levels parent child none l = str_eq parent child
compare_levels parent child (some p) none = str_eq parent child
compare_levels parent child (some p) (some c) = leb c p

unfoldable pub action_narrowed : String → String → Bool
action_narrowed parent child =
    compare_levels parent child (action_level parent) (action_level child)

-- `none` is the exception of a resource that does not parse.
unfoldable pub is_narrowed : Attenuation → Attenuation → Option Bool
unfolding action_narrowed
is_narrowed parent child = elim (is_attenuation parent.resource child.resource) [
  | none ↦ none
  | some false ↦ some false
  | some true ↦ some (action_narrowed parent.can child.can)
]

-- `parentAtts.some(...)`: stops at the first that covers the child, and at an exception.
unfoldable pub some_narrowed : List Attenuation → Attenuation → Option Bool
unfolding is_narrowed
some_narrowed [] child = some false
some_narrowed (p ∷ ps) child =
    let rest = some_narrowed ps child in
    elim (is_narrowed p child) [ none ↦ none | some true ↦ some true | some false ↦ rest ]

unfoldable pub is_attenuation_subset : List Attenuation → List Attenuation → Option Bool
unfolding some_narrowed
is_attenuation_subset parents [] = some true
is_attenuation_subset parents (c ∷ cs) =
    let rest = is_attenuation_subset parents cs in
    elim (some_narrowed parents c) [ none ↦ none | some true ↦ rest | some false ↦ some false ]

-- `Math.min` with `undefined` is NaN, which is written as `null` and compares like 0.
abbrev pub inherited_expiry : Option ℕ → Option ℕ → Option ℕ
inherited_expiry none parent = parent
inherited_expiry (some e) none = some 0
inherited_expiry (some e) (some p) = some (min e p)

-- The payload of the token that `delegateUCAN` signs; `none` for UCAN_DELEGATION_ERROR and for the
-- exceptions of the parsers. The ids are fresh.
unfoldable pub delegated_payload :
    Payload → Text → String → List Attenuation → Option ℕ → String → String → Option Payload
unfolding is_attenuation_subset
delegated_payload parent parent_token audience narrowed expires_at nnc jti =
    elim (is_attenuation_subset parent.att narrowed) [
      | none ↦ none
      | some false ↦ none
      | some true ↦ some (record {
        iss = parent.aud;
        aud = audience;
        exp = inherited_expiry expires_at parent.exp;
        nbf = none;
        nnc = some nnc;
        jti = some jti;
        att = narrowed;
        prf = parent_token ∷ [];
        escrow_id = none;
      })
    ]

-- Why a chain is refused, with the position where the code names one.
pub data Refusal : Type 0 where
  empty_chain too_deep : Refusal
  unknown_issuer audience_mismatch expiry_exceeded widened : ℕ → Refusal
  bad_token : ℕ → Reason → Refusal

-- The loop over neighbours, from position `i` on: `none` is an exception, `some none` no fault.
unfoldable pub check_links : ℕ → Payload → List Payload → Option (Option Refusal)
unfolding is_attenuation_subset
check_links i parent [] = some none
check_links i parent (child ∷ rest) =
    let onward = check_links (i + 1) child rest in
    if not (str_eq parent.aud child.iss)
    then some (some (audience_mismatch i))
    else if is_less parent.exp child.exp
    then some (some (expiry_exceeded i))
    else elim (is_attenuation_subset parent.att child.att) [
      | none ↦ none
      | some false ↦ some (some (widened i))
      | some true ↦ onward
    ]

abbrev pub check_chain : List Payload → Option (Option Refusal)
check_chain [] = some none
check_chain (root ∷ rest) = check_links 1 root rest

abbrev pub unchecked : VerifyOptions
unchecked = record { check_replay = false; check_revocation = false }

module _ (k : Codec) (resolve_public_key : String → Option k.PublicKey) where
  -- `tokens.map(decodeUCAN)`; `none` is its exception.
  unfoldable pub decode_all : List Text → Option (List (Text × Payload))
  decode_all [] = some []
  decode_all (t ∷ ts) =
      let rest = decode_all ts in
      elim (decode_ucan k t) [
        | none ↦ none
        | some p ↦ elim rest [ none ↦ none | some ps ↦ some ((t, p) ∷ ps) ]
      ]

  -- The first loop, from position `i` on. Neither the time, the cache nor the revocation set is
  -- read under these options.
  unfoldable pub check_signatures : ℕ → List (Text × Payload) → Option Refusal
  check_signatures i [] = none
  check_signatures i ((t, p) ∷ rest) =
      let onward = check_signatures (i + 1) rest in
      elim (resolve_public_key p.iss) [
        | none ↦ some (unknown_issuer i)
        | some key ↦ elim (verify_ucan k unchecked 0 t key none []).0 [
          | invalid reason ↦ some (bad_token i reason)
          | valid ↦ onward
        ]
      ]

  abbrev pub payloads : List (Text × Payload) → List Payload
  payloads [] = []
  payloads ((t, p) ∷ rest) = p ∷ payloads rest

  unfoldable pub check_decoded : List (Text × Payload) → Option (Option Refusal)
  unfolding check_signatures check_links
  check_decoded decoded = elim (check_signatures 0 decoded) [
    | some refusal ↦ some (some refusal)
    | none ↦ check_chain (payloads decoded)
  ]

  -- `validateChain`: `none` is an exception, `some none` a valid chain. The depth that it reports
  -- is `length tokens - 1`.
  unfoldable pub validate_chain : List Text → Option (Option Refusal)
  unfolding decode_all check_decoded
  validate_chain [] = some (some empty_chain)
  validate_chain (t ∷ ts) =
      if ltb max_chain_depth (length ts)
      then some (some too_deep)
      else elim (decode_all (t ∷ ts)) [ none ↦ none | some decoded ↦ check_decoded decoded ]
