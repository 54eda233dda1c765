-- ===== src/Identity/Rotation.antt =====
-- src/identity/did-rotation.ts: an old key hands a DID over to a new one. `derive_agent_id`, a SHA-256
-- hash of Node, is the argument `derive`; keys are their hexadecimal digits and times milliseconds.
pub mod Verified
use agentbnb.Prelude.{ℕ, ◌+◌, ◌*◌, Bool, String, str_append, Option, none, some, ltb, if◌then◌else◌}
use agentbnb.Credit.Owner.{is_hex16}
use agentbnb.Identity.Signed.{Scheme}

pub record KeyPair : Type 0 where
  pub public_key : String
  pub private_key : String

-- The fields that are signed.
pub record Rotation : Type 0 where
  pub old_did : String
  pub new_did : String
  pub new_public_key : String
  pub timestamp : ℕ

pub record RotationRecord : Type 0 where
  pub payload : Rotation
  pub old_public_key : String
  pub grace_period_days : ℕ
  pub old_key_signature : String

abbrev pub rotation_grace_days : ℕ
rotation_grace_days = 90

-- `toDIDAgentBnB`, with `none` for the exception.
unfoldable pub to_did_agentbnb : String → Option String
unfolding is_hex16
to_did_agentbnb agent_id =
    if is_hex16 agent_id then some (str_append "did:agentbnb:" agent_id) else none

abbrev pub or_days : Option ℕ → ℕ
or_days none = rotation_grace_days
or_days (some days) = days

module _ (s : Scheme Rotation) (derive : String → String) where
  abbrev pub signed_rotation : KeyPair → KeyPair → Option ℕ → ℕ → String → String → RotationRecord
  signed_rotation old_keys new_keys days now old_did new_did =
      let p : Rotation = record {
        old_did = old_did;
        new_did = new_did;
        new_public_key = new_keys.public_key;
        timestamp = now;
      } in
      record {
        payload = p;
        old_public_key = old_keys.public_key;
        grace_period_days = or_days days;
        old_key_signature = s.sign p old_keys.private_key;
      }

  unfoldable pub create_rotation_record : KeyPair → KeyPair → Option ℕ → ℕ → Option RotationRecord
  unfolding to_did_agentbnb
  create_rotation_record old_keys new_keys days now =
      elim (to_did_agentbnb (derive old_keys.public_key)) [
        | none ↦ none
        | some old_did ↦ elim (to_did_agentbnb (derive new_keys.public_key)) [
          | none ↦ none
          | some new_did ↦ some (signed_rotation old_keys new_keys days now old_did new_did)
        ]
      ]

  unfoldable pub verify_rotation_record : RotationRecord → Bool
  verify_rotation_record r = s.verify r.payload r.old_key_signature r.old_public_key

  -- The new keys come from Node.
  unfoldable pub rotate_keys : KeyPair → KeyPair → ℕ → KeyPair × Option RotationRecord
  unfolding create_rotation_record
  rotate_keys old_keys new_keys now = (new_keys, create_rotation_record old_keys new_keys none now)

unfoldable pub is_within_grace_period : RotationRecord → ℕ → Bool
is_within_grace_period r now =
    ltb now (r.payload.timestamp + r.grace_period_days * 24 * 60 * 60 * 1000)
