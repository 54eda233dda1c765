-- ===== src/Auth/Token.antt =====
-- src/auth/ucan.ts: tokens, their creation and their verification. Base64, JSON and Ed25519 come
-- from Node: they are the parameter `Codec`. A token is a text, `header.payload.signature`.
pub mod Roundtrip
pub mod Verify
use agentbnb.Prelude.{
  ℕ, Bool, true, false, String, List, [], ◌∷◌, ◌++◌, Option, none, some, Text, split_on, codes,
  str_eq, ltb, not, if◌then◌else◌, length, ◌==◌,
}
use agentbnb.Auth.Replay.{Cache, check_and_record_jti}
use agentbnb.Auth.Revocation.{RevocationSet, is_revoked, is_issuer_revoked}

-- `UCANAttenuation`; the caveats `nb` are carried along and read by no function of src/auth.
pub record Attenuation : Type 0 where
  pub resource : Text
  pub can : String

-- `UCANPayload`. The decoder casts what `JSON.parse` returns: a field that code tests for is optional
-- here, and so is the expiry, since `undefined` compares as neither less nor greater than any
-- number. An expiry of `null` compares like 0 and stands for it. Expiries that are not whole or
-- below 0, and fields of another type than the interface gives them, are left aside.
pub record Payload : Type 0 where
  pub iss : String
  pub aud : String
  pub exp : Option ℕ
  pub nbf : Option ℕ
  pub nnc : Option String
  pub jti : Option String
  pub att : List Attenuation
  pub prf : List Text
  pub escrow_id : Option String

-- What the code takes from Node. `header_ok` and `payload_of` are `JSON.parse(fromBase64Url(...))`,
-- with `false` and `none` for an exception; `verify_signature` is `createPublicKey` and `verify`,
-- with `none` for an exception; the others encode, and sign with a private key.
pub record Codec : Type 1 where
  pub PublicKey : Type 0
  pub PrivateKey : Type 0
  pub header : Text
  pub header_ok : Text → Bool
  pub encode_payload : Payload → Text
  pub payload_of : Text → Option Payload
  pub sign : Text → PrivateKey → Text
  pub verify_signature : Text → PublicKey → Text → Option Bool

pub data Reason : Type 0 where
  bad_format bad_signature issuer_revoked escrow_revoked missing_jti replay_detected : Reason
  verification_error : Reason

pub data Verdict : Type 0 where
  valid : Verdict
  invalid : Reason → Verdict

pub record VerifyOptions : Type 0 where
  pub check_replay : Bool
  pub check_revocation : Bool

-- `a < b` on numbers, of which either may be `undefined`.
abbrev pub is_less : Option ℕ → Option ℕ → Bool
is_less none b = false
is_less (some a) none = false
is_less (some a) (some b) = ltb a b

abbrev pub dot : ℕ
dot = b'.'

abbrev pub signing_input : Text → Text → Text
signing_input h p = h ++ dot ∷ p

module _ (k : Codec) where
  open k use {
    PublicKey, PrivateKey, header, header_ok, encode_payload, payload_of, sign, verify_signature,
  }

  abbrev pub create_token : Payload → PrivateKey → Text
  create_token p key =
      let input = signing_input header (encode_payload p) in input ++ dot ∷ sign input key

  -- `none` is the exception UCAN_INVALID.
  abbrev pub decode_parts : List Text → Option Payload
  decode_parts (h ∷ p ∷ s ∷ []) = if header_ok h then payload_of p else none
  decode_parts _ = none

  unfoldable pub decode_ucan : Text → Option Payload
  decode_ucan token = decode_parts (split_on dot token)

  -- `undefined` and `null` fall through to the nonce.
  abbrev pub token_id : Payload → Option String
  token_id p = elim p.jti [ none ↦ p.nnc | some j ↦ some j ]

  unfoldable pub replay_stage : ℕ → Payload → Cache → Verdict × Cache
  replay_stage now p c = elim (token_id p) [
    | none ↦ (invalid missing_jti, c)
    | some jti ↦
        if str_eq jti ""
        then (invalid missing_jti, c)
        else let (recorded, c') = check_and_record_jti jti p.exp now c in
          (if recorded then valid else invalid replay_detected, c')
  ]

  abbrev escrow_is_revoked : Option String → RevocationSet → Bool
  escrow_is_revoked none r = false
  escrow_is_revoked (some e) r = is_revoked e r

  -- Stage 2; `none` goes on to stage 3. The set may not be wired in.
  unfoldable pub revocation_stage : Payload → Option RevocationSet → Option Reason
  revocation_stage p none = none
  revocation_stage p (some r) =
      if is_issuer_revoked p.iss r
      then some issuer_revoked
      else if escrow_is_revoked p.escrow_id r
      then some escrow_revoked
      else none

  unfoldable pub later_stages :
      VerifyOptions → ℕ → Option Payload → Option RevocationSet → Cache → Verdict × Cache
  unfolding revocation_stage replay_stage
  later_stages o now none r c = (invalid verification_error, c)
  later_stages o now (some p) r c =
      elim (if o.check_revocation then revocation_stage p r else none) [
        | some reason ↦ (invalid reason, c)
        | none ↦ if o.check_replay then replay_stage now p c else (valid, c)
      ]

  unfoldable pub verify_parts :
      VerifyOptions
      → ℕ
      → Text
      → List Text
      → PublicKey
      → Option RevocationSet
      → Cache
      → Verdict × Cache
  unfolding later_stages decode_ucan
  verify_parts o now token (h ∷ p ∷ s ∷ []) key r c =
      elim (verify_signature (signing_input h p) key s) [
        | none ↦ (invalid verification_error, c)
        | some false ↦ (invalid bad_signature, c)
        | some true ↦ later_stages o now (decode_ucan token) r c
      ]
  verify_parts o now token _ key r c = (invalid bad_format, c)

  -- `verifyUCAN`, over the replay cache and the revocation set that is wired in.
  unfoldable pub verify_ucan :
      VerifyOptions → ℕ → Text → PublicKey → Option RevocationSet → Cache → Verdict × Cache
  unfolding verify_parts
  verify_ucan o now token key r c = verify_parts o now token (split_on dot token) key r c

  -- `isExpired`; `none` is the exception of the decoder.
  unfoldable pub is_expired : ℕ → Text → Option Bool
  unfolding decode_ucan
  is_expired now token = elim (decode_ucan token) [
    | none ↦ none
    | some p ↦ some (is_less p.exp (some now))
  ]
