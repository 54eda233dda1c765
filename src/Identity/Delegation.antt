-- ===== src/Identity/Delegation.antt =====
-- src/identity/delegation.ts: a signed token by which a server may act for an agent. Times are
-- milliseconds. What is signed is the canonical JSON of an object, in which the fields are sorted.
pub mod Altered
use agentbnb.Prelude.{
  Dict, ℕ, ◌+◌, ◌*◌, Bool, true, false, not, ◌||◌, ltb, String, List, [], ◌∷◌, if◌then◌else◌,
}
use agentbnb.Identity.Signed.{Scheme}

pub data DelegationPermission : Type 0 where
  serve publish settle request : DelegationPermission

pub record DelegationToken : Type 0 where
  pub server_id : String
  pub agent_id : String
  pub granted_at : ℕ
  pub expires_at : ℕ
  pub permissions : List DelegationPermission
  pub signature : String

-- What the fields of a signed object hold.
pub data Field : Type 0 where
  text : String → Field
  time : ℕ → Field
  permitted : List DelegationPermission → Field

-- An object that is signed: its fields under their names.
abbrev pub Object : Type 0
Object = Dict Field

pub data DelegationVerdict : Type 0 where
  valid token_expired invalid_signature : DelegationVerdict

abbrev pub default_permissions : List DelegationPermission
default_permissions = serve ∷ publish ∷ settle ∷ []

abbrev pub default_days : ℕ
default_days = 30

module _ (s : Scheme Object) where
  unfoldable pub create_delegation_token :
      String → String → String → List DelegationPermission → ℕ → ℕ → DelegationToken
  create_delegation_token agent server private_key granted duration_days now =
      let expires = now + duration_days * 24 * 60 * 60 * 1000 in
      let payload : Object =
        ("server_id", text server)
        ∷ ("agent_id", text agent)
        ∷ ("granted_at", time now)
        ∷ ("expires_at", time expires)
        ∷ ("permissions", permitted granted)
        ∷ [] in
      record {
        server_id = server;
        agent_id = agent;
        granted_at = now;
        expires_at = expires;
        permissions = granted;
        signature = s.sign payload private_key;
      }

  -- The object whose signature is verified, from the fields of the token.
  abbrev pub rebuilt : DelegationToken → Object
  rebuilt token =
      ("server_id", text token.server_id)
      ∷ ("agent_id", text token.agent_id)
      ∷ ("granted_at", time token.granted_at)
      ∷ ("expires_at", time token.expires_at)
      ∷ ("permissions", permitted token.permissions)
      ∷ []

  unfoldable pub verify_delegation_token : DelegationToken → String → ℕ → DelegationVerdict
  verify_delegation_token token public_key now =
      if ltb token.expires_at now
      then token_expired
      else if not (s.verify (rebuilt token) token.signature public_key)
      then invalid_signature
      else valid

abbrev pub same_permission : DelegationPermission → DelegationPermission → Bool
same_permission serve serve = true
same_permission publish publish = true
same_permission settle settle = true
same_permission request request = true
same_permission serve publish = false
same_permission serve settle = false
same_permission serve request = false
same_permission publish serve = false
same_permission publish settle = false
same_permission publish request = false
same_permission settle serve = false
same_permission settle publish = false
same_permission settle request = false
same_permission request serve = false
same_permission request publish = false
same_permission request settle = false

abbrev grants : DelegationPermission → List DelegationPermission → Bool
grants p [] = false
grants p (q ∷ qs) = same_permission q p || grants p qs

unfoldable pub has_permission : DelegationToken → DelegationPermission → Bool
has_permission token permission = grants permission token.permissions
