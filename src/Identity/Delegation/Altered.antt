-- ===== src/Identity/Delegation/Altered.antt =====
-- Which tokens verify (src/identity/delegation.ts).
use agentbnb.Prelude.{ℕ, ◌≡◌, ◌∙◌, ◌≤◌, ◌↔◌, refl, sym, subst, true, String, List, some, get, arith}
use agentbnb.Identity.Signed.{Scheme, Fits}
use agentbnb.Identity.Delegation.{
  DelegationPermission, DelegationToken, Object, text, time, permitted, valid, rebuilt,
  create_delegation_token, verify_delegation_token,
}

-- Two objects have the same fields, in whatever order: their canonical JSON is the same.
abbrev pub SameFields : Object → Object → Type 0
SameFields p q = (name : String) → get name p ≡ get name q

-- The signature of an object verifies for no object with other fields.
abbrev pub BindsFields : Scheme Object → String → String → Object → Type 0
BindsFields s private_key public_key p =
    (q : Object) → s.verify q (s.sign p private_key) public_key ≡ true → SameFields q p

verify-valid :
    (s : Scheme Object) (t : DelegationToken) (public_key : String) (now : ℕ)
    → (verify_delegation_token s t public_key now ≡ valid)
      ↔ ((s.verify (rebuilt s t) t.signature public_key ≡ true) × (now ≤ t.expires_at))
unfolding verify_delegation_token
verify-valid s t public_key now = ground arith

text_injective : {a b : String} → some (text a) ≡ some (text b) → a ≡ b
text_injective h = cc

time_injective : {a b : ℕ} → some (time a) ≡ some (time b) → a ≡ b
time_injective h = cc

permitted_injective :
    {a b : List DelegationPermission} → some (permitted a) ≡ some (permitted b) → a ≡ b
permitted_injective h = cc

same_token :
    (t u : DelegationToken)
    → t.server_id ≡ u.server_id
    → t.agent_id ≡ u.agent_id
    → t.granted_at ≡ u.granted_at
    → t.expires_at ≡ u.expires_at
    → t.permissions ≡ u.permissions
    → t.signature ≡ u.signature
    → t ≡ u
same_token t u a b c d e f = λ i. record {
  server_id = a i;
  agent_id = b i;
  granted_at = c i;
  expires_at = d i;
  permissions = e i;
  signature = f i;
}

-- The object that is verified has all the fields of the token.
rebuilt_injective :
    (s : Scheme Object) (t u : DelegationToken)
    → SameFields (rebuilt s t) (rebuilt s u)
    → t.signature ≡ u.signature
    → t ≡ u
unfolding get
rebuilt_injective s t u h =
    same_token t u (text_injective (h "server_id")) (text_injective (h "agent_id"))
      (time_injective (h "granted_at")) (time_injective (h "expires_at"))
      (permitted_injective (h "permissions"))

-- Let the key pair fit, and let the signature of the object that was signed for a created token verify
-- for no object with other fields. Then a token with this signature verifies exactly if it is the
-- created one, until that expires: with another server, agent, time or permissions it is refused.
pub altered_token_fails :
    (s : Scheme Object) (agent server private_key public_key : String)
    (granted : List DelegationPermission) (days created now : ℕ) (token altered : DelegationToken)
    → create_delegation_token s agent server private_key granted days created ≡ token
    → Fits s private_key public_key (rebuilt s token)
    → BindsFields s private_key public_key (rebuilt s token)
    → altered.signature ≡ token.signature
    → (verify_delegation_token s altered public_key now ≡ valid)
      ↔ ((altered ≡ token) × (now ≤ token.expires_at))
unfolding create_delegation_token
altered_token_fails s agent server private_key public_key granted days created now token altered
      made fits binds kept =
    let iff = verify-valid s altered public_key now in
    let signed : token.signature ≡ s.sign (rebuilt s token) private_key = signature-created made in
    (
      λ h.
          let (accepted, in_time) = iff.0 h in
          let same =
            rebuilt_injective s altered token
              (binds (rebuilt s altered) (
                subst (λ x. s.verify (rebuilt s altered) x public_key ≡ true) (kept ∙ signed)
                  accepted))
              kept in
          (same, subst (λ t. now ≤ t.expires_at) same in_time),
      λ (same, in_time). iff.1 (
          subst (λ t. (s.verify (rebuilt s t) t.signature public_key ≡ true) × (now ≤ t.expires_at))
            (sym same)
            (
              subst (λ x. s.verify (rebuilt s token) x public_key ≡ true) (sym signed) fits,
              in_time,
            )),
    )
  where
    signature-created :
        create_delegation_token s agent server private_key granted days created ≡ token
        → token.signature ≡ s.sign (rebuilt s token) private_key
    signature-created e = subst (λ t. t.signature ≡ s.sign (rebuilt s t) private_key) e refl
