-- ===== src/Auth/Token/Roundtrip.antt =====
-- A token that `createUCAN` makes is decoded to its payload and verifies (src/auth/ucan.ts).
use agentbnb.Prelude.{◌≡◌, true, List, [], ◌∷◌, some, Text, Lacks}
use agentbnb.Auth.Token.{Codec, Payload, dot, signing_input}

-- What base64url, JSON and Ed25519 promise of one payload and one key pair: encoded parts hold no
-- dot, decoding undoes encoding, and the public key accepts what the private key signed.
pub record Laws (k : Codec) (public : k.PublicKey) (private : k.PrivateKey) (p : Payload)
    : Type 0 where
  pub header_dotless : Lacks dot k.header
  pub payload_dotless : Lacks dot (k.encode_payload p)
  pub signature_dotless : Lacks dot (k.sign (signing_input k.header (k.encode_payload p)) private)
  pub header_decodes : k.header_ok k.header ≡ true
  pub payload_decodes : k.payload_of (k.encode_payload p) ≡ some p
  pub signature_verifies :
      k.verify_signature
        (signing_input k.header (k.encode_payload p))
        public
        (k.sign (signing_input k.header (k.encode_payload p)) private)
      ≡ some true

module _ (k : Codec) (public : k.PublicKey) (private : k.PrivateKey) (p : Payload)
    (laws : Laws k public private p) where
  abbrev created_parts : List Text
  created_parts =
      k.header
      ∷ k.encode_payload p
      ∷ k.sign (signing_input k.header (k.encode_payload p)) private
      ∷ []
