-- ===== src/Identity/Rotation/Verified.antt =====
-- Which rotations verify (src/identity/did-rotation.ts).
use agentbnb.Prelude.{ℕ, ◌≡◌, true, String, Option, some, inl, inr, Option-cases, subst}
use agentbnb.Identity.Signed.{Scheme, Fits}
use agentbnb.Identity.Rotation.{
  KeyPair, Rotation, RotationRecord, signed_rotation, create_rotation_record,
  verify_rotation_record, to_did_agentbnb,
}

module _ (s : Scheme Rotation) (derive : String → String) where
  some_injective : {a b : RotationRecord} → some a ≡ some b → a ≡ b
  some_injective h = cc

  -- The key that signs fits; the DID that it rotates from is not looked at.
  verify-signed_rotation :
      (old_keys new_keys : KeyPair) (days : Option ℕ) (now : ℕ) (old_did new_did : String)
      → ((p : Rotation) → Fits s old_keys.private_key old_keys.public_key p)
      → verify_rotation_record s derive
          (signed_rotation s derive old_keys new_keys days now old_did new_did)
        ≡ true
  unfolding verify_rotation_record
  verify-signed_rotation old_keys new_keys days now old_did new_did fits = fits _

  -- A rotation record that is created under a key pair that fits verifies.
  pub verify-create_rotation_record :
      (old_keys new_keys : KeyPair) (days : Option ℕ) (now : ℕ) (r : RotationRecord)
      → ((p : Rotation) → Fits s old_keys.private_key old_keys.public_key p)
      → create_rotation_record s derive old_keys new_keys days now ≡ some r
      → verify_rotation_record s derive r ≡ true
  unfolding create_rotation_record
  verify-create_rotation_record old_keys new_keys days now r fits =
      elim (Option-cases (to_did_agentbnb (derive old_keys.public_key))) [
        | inl e ↦ rw (e, create_rotation_record) (λ h. cc)
        | inr (old_did, e) ↦ elim (Option-cases (to_did_agentbnb (derive new_keys.public_key))) [
          | inl f ↦ rw (e, create_rotation_record, f) (λ h. cc)
          | inr (new_did, f) ↦
              rw (e, create_rotation_record, f)
                (λ h.
                  let same = some_injective h in
                  subst (λ x. verify_rotation_record s derive x ≡ true) same
                    (verify-signed_rotation old_keys new_keys days now old_did new_did fits))
        ]
      ]
