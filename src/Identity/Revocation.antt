-- ===== src/Identity/Revocation.antt =====
-- src/identity/did-revocation.ts: signed records that revoke a DID, and the registry of them.
pub mod Recorded
use agentbnb.Prelude.{
  ℕ, Bool, true, false, not, String, List, [], Option, some, none, Dict, get, put, keys,
  if◌then◌else◌,
}
use agentbnb.Identity.Signed.{Scheme}

-- The fields that are signed.
pub record Revocation : Type 0 where
  pub did : String
  pub reason : String
  pub timestamp : ℕ

pub record RevocationRecord : Type 0 where
  pub payload : Revocation
  pub revoker_public_key : String
  pub signature : String

abbrev pub Registry : Type 0
Registry = Dict RevocationRecord

pub data Revoked : Type 0 where
  revocation_recorded revocation_invalid_signature : Revoked

module _ (s : Scheme Revocation) where
  unfoldable pub create_revocation_record : String → String → String → String → ℕ → RevocationRecord
  create_revocation_record did reason revoker_key revoker_public_key_hex now =
      let p : Revocation = record { did = did; reason = reason; timestamp = now } in
      record {
        payload = p;
        revoker_public_key = revoker_public_key_hex;
        signature = s.sign p revoker_key;
      }

  unfoldable pub verify_revocation_record : RevocationRecord → Bool
  verify_revocation_record r = s.verify r.payload r.signature r.revoker_public_key

  unfoldable pub revoke : RevocationRecord → Registry → Revoked × Registry
  unfolding verify_revocation_record
  revoke r records =
      if not (verify_revocation_record r)
      then (revocation_invalid_signature, records)
      else (revocation_recorded, put r.payload.did r records)

unfoldable pub is_did_revoked : String → Registry → Bool
is_did_revoked did records = elim (get did records) [ none ↦ false | some r ↦ true ]

unfoldable pub get_revocation : String → Registry → Option RevocationRecord
get_revocation did records = get did records

unfoldable pub list_revoked : Registry → List String
list_revoked records = keys records

unfoldable pub clear : Registry → Registry
clear records = []
