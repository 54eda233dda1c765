-- ===== src/Identity/Tests.antt =====
-- Runs of src/identity.
use agentbnb.Prelude.{
  ap, get, ◌↔◌, ◌≤◌, ◌&&◌, ◌==◌, Bool, true, false, arith, if◌then◌else◌, occurrences, str_eq_iff,
  ◌≡◌, refl, List, [], ◌∷◌, none, some, ℕ, str_eq,
}
use agentbnb.Credit.Table.{select_first}
use agentbnb.Identity.Agents.{AgentRecord, lookup_agent, update_agent_record}
use agentbnb.Identity.Operators.{ClaimRequest, Signing, claim_agent}
use agentbnb.Identity.Operators.Claimed.{operator_of, run_claims, claim_agent_stays}
use agentbnb.Identity.Signed.{Scheme}
use agentbnb.Identity.Delegation.{
  DelegationPermission, DelegationToken, Field, Object, text, time, permitted, valid,
  same_permission, create_delegation_token, verify_delegation_token, serve, publish, settle,
  request,
}
use agentbnb.Identity.Delegation.Altered.{BindsFields, altered_token_fails}
use agentbnb.Identity.Revocation.{
  Revocation, RevocationRecord, create_revocation_record, get_revocation, list_revoked,
  is_did_revoked,
}
use agentbnb.Identity.Revocation.Recorded.{run_revocations, last_valid, run_revocations_lem}
use agentbnb.Identity.Guarantors.{empty_tables}
use agentbnb.Identity.Guarantors.Counts.{
  Command, register, link, run_commands, IsConsistent, run_commands-IsConsistent,
}

abbrev commands : List (Command × ℕ)
commands =
    (register "octo" "g", 1)
    ∷ (link "a" "octo", 2)
    ∷ (link "a" "octo", 3)
    ∷ (link "b" "octo", 4)
    ∷ []

run_commands-IsConsistent_example : IsConsistent (run_commands commands empty_tables)
run_commands-IsConsistent_example = run_commands-IsConsistent commands

abbrev agent : AgentRecord
agent = record {
  agent_id = "abc";
  display_name = "Abc";
  public_key = "k";
  operator_id = none;
  server_id = none;
  legacy_owner = some "ann";
  created_at = 1;
  updated_at = 1;
}

abbrev signing : Signing
signing = record { sign = λ p k. k; verify = λ p s k. str_eq s k }

abbrev claim : ClaimRequest
claim = record {
  payload = record { agent_id = "abc"; operator_id = "op"; timestamp = 1 };
  signature = "key";
}

abbrev other_claim : ClaimRequest
other_claim = record {
  payload = record { agent_id = "abc"; operator_id = "thief"; timestamp = 2 };
  signature = "other";
}

claim_agent_stays_example :
    operator_of "abc" (
      run_claims signing
        ((other_claim, "other", 5) ∷ [])
        (claim_agent signing claim "key" 4 (agent ∷ [])).1)
    ≡ some (some "op")
unfolding claim_agent lookup_agent update_agent_record select_first
claim_agent_stays_example =
    claim_agent_stays signing claim "key" 4 (agent ∷ []) ((other_claim, "other", 5) ∷ []) refl refl

-- Signs texts by themselves.
abbrev notary : Scheme Revocation
notary = record { sign = λ p k. p.did; verify = λ p s k. str_eq p.did s }

abbrev earlier : RevocationRecord
earlier = create_revocation_record notary "did:a" "lost" "key" "key" 4

abbrev forged : RevocationRecord
forged = record earlier { signature = "none" }

abbrev later_one : RevocationRecord
later_one = create_revocation_record notary "did:a" "stolen" "key" "key" 6

run_revocations_lem_example :
    (get_revocation "did:a" (run_revocations notary (earlier ∷ later_one ∷ forged ∷ []) [])
      ≡ last_valid notary "did:a" (earlier ∷ later_one ∷ forged ∷ []) none)
    × (occurrences "did:a"
          (list_revoked (run_revocations notary (earlier ∷ later_one ∷ forged ∷ []) []))
        ≡ (if is_did_revoked "did:a" (run_revocations notary (earlier ∷ later_one ∷ forged ∷ []) [])
            then 1
            else 0))
run_revocations_lem_example = run_revocations_lem notary (earlier ∷ later_one ∷ forged ∷ []) "did:a"

-- Objects that are alike, field by field.
same_permission_lem : (p q : DelegationPermission) → same_permission p q ≡ true → p ≡ q
same_permission_lem serve serve h = refl
same_permission_lem serve publish h = cc
same_permission_lem serve settle h = cc
same_permission_lem serve request h = cc
same_permission_lem publish serve h = cc
same_permission_lem publish publish h = refl
same_permission_lem publish settle h = cc
same_permission_lem publish request h = cc
same_permission_lem settle serve h = cc
same_permission_lem settle publish h = cc
same_permission_lem settle settle h = refl
same_permission_lem settle request h = cc
same_permission_lem request serve h = cc
same_permission_lem request publish h = cc
same_permission_lem request settle h = cc
same_permission_lem request request h = refl

abbrev same_permissions : List DelegationPermission → List DelegationPermission → Bool
same_permissions [] [] = true
same_permissions [] (q ∷ qs) = false
same_permissions (p ∷ ps) [] = false
same_permissions (p ∷ ps) (q ∷ qs) = same_permission p q && same_permissions ps qs

same_permissions_lem : (ps qs : List DelegationPermission) → same_permissions ps qs ≡ true → ps ≡ qs
same_permissions_lem [] [] h = refl
same_permissions_lem [] (q ∷ qs) h = cc
same_permissions_lem (p ∷ ps) [] h = cc
same_permissions_lem (p ∷ ps) (q ∷ qs) h =
    ground (arith, h, same_permission_lem p q, same_permissions_lem ps qs)

abbrev same_field : Field → Field → Bool
same_field (text a) (text b) = str_eq a b
same_field (text a) (time b) = false
same_field (text a) (permitted b) = false
same_field (time a) (text b) = false
same_field (time a) (time b) = a == b
same_field (time a) (permitted b) = false
same_field (permitted a) (text b) = false
same_field (permitted a) (time b) = false
same_field (permitted a) (permitted b) = same_permissions a b

same_field_lem : (a b : Field) → same_field a b ≡ true → a ≡ b
same_field_lem (text a) (text b) h = ap text ((str_eq_iff a b).0 h)
same_field_lem (text a) (time b) h = cc
same_field_lem (text a) (permitted b) h = cc
same_field_lem (time a) (text b) h = cc
same_field_lem (time a) (time b) h = ap time (ground (arith, h))
same_field_lem (time a) (permitted b) h = cc
same_field_lem (permitted a) (text b) h = cc
same_field_lem (permitted a) (time b) h = cc
same_field_lem (permitted a) (permitted b) h = ap permitted (same_permissions_lem a b h)

abbrev same_object : Object → Object → Bool
same_object [] [] = true
same_object [] (e ∷ q) = false
same_object (e ∷ p) [] = false
same_object ((k, a) ∷ p) ((j, b) ∷ q) = str_eq k j && same_field a b && same_object p q

same_object_lem : (p q : Object) → same_object p q ≡ true → p ≡ q
same_object_lem [] [] h = refl
same_object_lem [] (e ∷ q) h = cc
same_object_lem (e ∷ p) [] h = cc
same_object_lem ((k, a) ∷ p) ((j, b) ∷ q) h =
    ground (arith, h, str_eq_iff k j, same_field_lem a b, same_object_lem p q)

abbrev granted_object : Object
granted_object =
    ("server_id", text "server")
    ∷ ("agent_id", text "abc")
    ∷ ("granted_at", time 5)
    ∷ ("expires_at", time 86400005)
    ∷ ("permissions", permitted (serve ∷ []))
    ∷ []

-- Accepts one object alone.
abbrev seal : Scheme Object
seal = record { sign = λ p k. "sealed"; verify = λ q s k. same_object q granted_object }

abbrev token : DelegationToken
token = record {
  server_id = "server";
  agent_id = "abc";
  granted_at = 5;
  expires_at = 86400005;
  permissions = serve ∷ [];
  signature = "sealed";
}

abbrev widened : DelegationToken
widened = record token { permissions = serve ∷ settle ∷ [] }

seal-BindsFields : BindsFields seal "key" "key" granted_object
seal-BindsFields q h name = ap (get name) (same_object_lem q granted_object h)

altered_token_fails_example :
    (verify_delegation_token seal widened "key" 7 ≡ valid) ↔ ((widened ≡ token) × (7 ≤ 86400005))
unfolding create_delegation_token
altered_token_fails_example =
    altered_token_fails seal "abc" "server" "key" "key" (serve ∷ []) 1 5 7 token widened refl refl
      seal-BindsFields refl
