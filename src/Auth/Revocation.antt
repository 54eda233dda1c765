-- ===== src/Auth/Revocation.antt =====
-- src/auth/ucan-escrow.ts: the life of a token bound to an escrow, and the revocation set.
use agentbnb.Prelude.{
  ℕ, ◌≤◌, ◌≡◌, Bool, false, ◌||◌, String, List, [], ◌∷◌, ◌++◌, Option, none, some, min, arith,
  str_eq, str_eq_iff, if◌then◌else◌,
}
use agentbnb.Credit.Types.{EscrowStatus, held, started, progressing, abandoned, settled, released}

pub data UcanState : Type 0 where
  active expired revoked : UcanState

unfoldable pub escrow_state_to_ucan_state : EscrowStatus → UcanState
escrow_state_to_ucan_state held = active
escrow_state_to_ucan_state started = active
escrow_state_to_ucan_state progressing = active
escrow_state_to_ucan_state settled = expired
escrow_state_to_ucan_state released = revoked
escrow_state_to_ucan_state abandoned = revoked

-- The expiry that `createEscrowBoundUCAN` gives the token.
unfoldable pub bound_expiry : ℕ → Option ℕ → ℕ
bound_expiry escrow_expires_at none = escrow_expires_at
bound_expiry escrow_expires_at (some requested) = min requested escrow_expires_at

-- A JavaScript `Set` of texts: `has`, and `add`, which keeps the order of insertion.
unfoldable pub set_has : String → List String → Bool
set_has a [] = false
set_has a (x ∷ xs) = str_eq x a || set_has a xs

unfoldable pub set_add : String → List String → List String
unfolding set_has
set_add a xs = if set_has a xs then xs else xs ++ a ∷ []

-- `UCANRevocationSet`.
pub record RevocationSet : Type 0 where
  pub revoked_escrows : List String
  pub revoked_issuers : List String

unfoldable pub empty_revocations : RevocationSet
empty_revocations = record { revoked_escrows = []; revoked_issuers = [] }

unfoldable pub revoke_by_escrow : String → RevocationSet → RevocationSet
unfolding set_add
revoke_by_escrow e r = record r { revoked_escrows = set_add e r.revoked_escrows }

unfoldable pub revoke_issuer : String → RevocationSet → RevocationSet
unfolding set_add
revoke_issuer d r = record r { revoked_issuers = set_add d r.revoked_issuers }

unfoldable pub is_revoked : String → RevocationSet → Bool
is_revoked e r = set_has e r.revoked_escrows

unfoldable pub is_issuer_revoked : String → RevocationSet → Bool
is_issuer_revoked d r = set_has d r.revoked_issuers

pub bound_expiry-le : (limit : ℕ) (requested : Option ℕ) → bound_expiry limit requested ≤ limit
unfolding bound_expiry
bound_expiry-le limit none = omega arith
bound_expiry-le limit (some r) = omega arith

set_has-append :
    (a b : String) (xs : List String) → set_has a (xs ++ b ∷ []) ≡ (set_has a xs || str_eq b a)
unfolding set_has
set_has-append a b [] = ground arith
set_has-append a b (x ∷ xs) = ground (arith, set_has-append a b xs)

pub set_has-add :
    (a b : String) (xs : List String) → set_has a (set_add b xs) ≡ (set_has a xs || str_eq b a)
unfolding set_add
set_has-add a b xs = ground (arith, set_has-append a b xs, str_eq_iff b a)
