-- ===== src/Identity/Signed.antt =====
-- The signatures of src/credit/signing.ts over a payload, which come from Node: `signEscrowReceipt` and
-- `verifyEscrowReceipt` on the canonical JSON of the payload. Keys are texts.
use agentbnb.Prelude.{◌≡◌, Bool, true, String}

pub record Scheme (P : Type 0) : Type 0 where
  pub sign : P → String → String
  pub verify : P → String → String → Bool

-- What the private key signs verifies under the public key.
abbrev pub Fits : {P : Type 0} → Scheme P → String → String → P → Type 0
Fits s private_key public_key p = s.verify p (s.sign p private_key) public_key ≡ true
