-- ===== src/Auth/Token/Verify.antt =====
-- What an accepted token means (src/auth/ucan.ts, `verifyUCAN`).
use agentbnb.Prelude.{
  ℕ, ◌≡◌, refl, sym, ap, ◌∙◌, inl, inr, ◌≢◌, true, false, String, List, [], ◌∷◌, Option, none, some,
  arith, Text, split_on, Option-cases,
}
use agentbnb.Auth.Replay.{Cache, has}
use agentbnb.Auth.Replay.Bounds.{check_and_record_jti-has}
use agentbnb.Auth.Revocation.{RevocationSet, is_revoked, is_issuer_revoked}
use agentbnb.Auth.Token.{
  Codec, Payload, valid, VerifyOptions, verify_ucan, verify_parts, later_stages, revocation_stage,
  replay_stage, decode_ucan, dot, signing_input, token_id,
}

-- The default options.
abbrev pub checked : VerifyOptions
checked = record { check_replay = true; check_revocation = true }

-- If a revocation set is wired in, it has neither the issuer nor the escrow that the token is bound to.
abbrev pub IsUnrevoked : Payload → Option RevocationSet → Type 0
IsUnrevoked p none = Unit
IsUnrevoked p (some r) =
    (is_issuer_revoked p.iss r ≡ false)
    × ((e : String) → p.escrow_id ≡ some e → is_revoked e r ≡ false)

-- The token has an id that the cache did not hold and that it holds afterwards.
abbrev pub IsFirstUse : Codec → Payload → Cache → Cache → Type 0
IsFirstUse k p c c' = (j : String) × (token_id k p ≡ some j) × (has j c ≡ false) × (has j c' ≡ true)

module _ (k : Codec) (now : ℕ) where
  open k use {PublicKey, verify_signature}

  -- The token has three parts, of which the third signs the other two.
  abbrev pub IsSigned : List Text → PublicKey → Type 0
  IsSigned (h ∷ p ∷ s ∷ []) key = verify_signature (signing_input h p) key s ≡ some true
  IsSigned _ key = ⊥

  verify_parts_sound :
      (o : VerifyOptions) (token : Text) (parts : List Text) (key : PublicKey)
      (r : Option RevocationSet) (c : Cache)
      → (verify_parts k o now token parts key r c).0 ≡ valid
      → IsSigned parts key × ((later_stages k o now (decode_ucan k token) r c).0 ≡ valid)
  unfolding verify_parts
  verify_parts_sound o token [] key r c h = cc
  verify_parts_sound o token (a ∷ []) key r c h = cc
  verify_parts_sound o token (a ∷ b ∷ []) key r c h = cc
  verify_parts_sound o token (a ∷ b ∷ s ∷ d ∷ l) key r c h = cc
  verify_parts_sound o token (a ∷ b ∷ s ∷ []) key r c h = ground arith

  revocation_stage_sound :
      (p : Payload) (r : Option RevocationSet) → revocation_stage k p r ≡ none → IsUnrevoked p r
  unfolding revocation_stage
  revocation_stage_sound p none h = tt
  revocation_stage_sound p (some r) h = (ground arith, λ e q. ground arith)

  replay_stage_sound :
      (p : Payload) (c : Cache)
      → (replay_stage k now p c).0 ≡ valid
      → IsFirstUse k p c (replay_stage k now p c).1
  unfolding replay_stage
  replay_stage_sound p c h = elim (Option-cases (token_id k p)) [
    | inl e ↦ absurd (ground arith)
    | inr (j, e) ↦ (
      j,
      e,
      ground (arith, check_and_record_jti-has j p.exp now c),
      ground (arith, check_and_record_jti-has j p.exp now c),
    )
  ]

  later_stages_sound :
      (token : Option Payload) (r : Option RevocationSet) (c : Cache)
      → (later_stages k checked now token r c).0 ≡ valid
      → (p : Payload) × (token ≡ some p)
        × IsUnrevoked p r
        × IsFirstUse k p c (later_stages k checked now token r c).1
  unfolding later_stages
  later_stages_sound none r c h = cc
  later_stages_sound (some p) r c h = elim (Option-cases (revocation_stage k p r)) [
    | inl e ↦ (
      p,
      refl,
      revocation_stage_sound p r e,
      rw (e, later_stages) (replay_stage_sound p c (ground arith)),
    )
    | inr (reason, e) ↦ absurd (ground arith)
  ]

  verify_parts-later :
      (o : VerifyOptions) (token : Text) (parts : List Text) (key : PublicKey)
      (r : Option RevocationSet) (c : Cache)
      → IsSigned parts key
      → verify_parts k o now token parts key r c ≡ later_stages k o now (decode_ucan k token) r c
  unfolding verify_parts
  verify_parts-later o token [] key r c h = absurd h
  verify_parts-later o token (a ∷ []) key r c h = absurd h
  verify_parts-later o token (a ∷ b ∷ []) key r c h = absurd h
  verify_parts-later o token (a ∷ b ∷ s ∷ d ∷ l) key r c h = absurd h
  verify_parts-later o token (a ∷ b ∷ s ∷ []) key r c h = rw (h, verify_parts)

  -- With the default options, an accepted token is signed by the key and decodes, its id is new to the
  -- replay cache and recorded, and if a revocation set is wired in, neither its issuer nor its
  -- escrow is revoked there; without one, which is the state at the start, revocation is not looked at.
  pub verify_ucan_sound :
      (token : Text) (key : PublicKey) (r : Option RevocationSet) (c : Cache)
      → (verify_ucan k checked now token key r c).0 ≡ valid
      → IsSigned (split_on dot token) key
        × ((p : Payload) × (decode_ucan k token ≡ some p)
            × IsUnrevoked p r
            × IsFirstUse k p c (verify_ucan k checked now token key r c).1)
  unfolding verify_ucan
  verify_ucan_sound token key r c h =
      let found = verify_parts_sound checked token (split_on dot token) key r c h in
      (
        found.0,
        rw (verify_parts-later checked token (split_on dot token) key r c found.0)
            (later_stages_sound (decode_ucan k token) r c found.1),
      )

-- Two uses of one token cannot both be first uses, the second of the cache that the first leaves.
same_use :
    (k : Codec) (token : Text) (r r' : Option RevocationSet) (c c' c'' : Cache)
    → ((p : Payload) × (decode_ucan k token ≡ some p) × IsUnrevoked p r × IsFirstUse k p c c')
    → ((p : Payload) × (decode_ucan k token ≡ some p) × IsUnrevoked p r' × IsFirstUse k p c' c'')
    → ⊥
same_use k token r r' c c' c'' (p, e, _, (j, t, _, in_cache)) (p', e', _, (j', t', fresh, _)) =
    let same : p ≡ p' = cc in
    let same_id : some j ≡ some j' = sym t ∙ ap (token_id k) same ∙ t' in
    let same_text : j ≡ j' = cc in cc

-- With the default options in both uses, a token that was accepted is refused when it is presented again
-- to the cache that this left, under whatever key and time, and whatever revocation sets are wired in
-- or not.
pub verify_ucan_once :
    (k : Codec) (now later : ℕ) (token : Text) (key key' : k.PublicKey)
    (r r' : Option RevocationSet) (c : Cache)
    → (verify_ucan k checked now token key r c).0 ≡ valid
    → (verify_ucan k checked later token key' r' (verify_ucan k checked now token key r c).1).0
      ≢ valid
verify_ucan_once k now later token key key' r r' c h again =
    same_use k token r r' c _ _ (verify_ucan_sound k now token key r c h).1
      (verify_ucan_sound k later token key' r' _ again).1
