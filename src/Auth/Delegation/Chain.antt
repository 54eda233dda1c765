-- ===== src/Auth/Delegation/Chain.antt =====
-- What a validated chain of tokens guarantees (src/auth/ucan-delegation.ts, `validateChain`).
use agentbnb.Prelude.{
  ℕ, false, ◌+◌, ◌≤◌, ◌≡◌, refl, inl, inr, String, List, [], ◌∷◌, Option, none, some, arith, All,
  Member, Text, str_eq_iff, Option-cases, length,
}
use agentbnb.Auth.Token.{Codec, Attenuation, Payload, valid, is_less, verify_ucan}
use agentbnb.Auth.Delegation.{
  max_chain_depth, check_links, check_chain, unchecked, decode_all, check_signatures, payloads,
  check_decoded, validate_chain, delegated_payload, inherited_expiry,
}
use agentbnb.Auth.Delegation.Narrowing.{Covers, Covers-trans, is_attenuation_subset-Covers}

-- Each permission of the later token is covered by one of the earlier.
abbrev pub Inherits : Payload → Payload → Type 0
Inherits earlier later =
    (a : Attenuation) → Member a later.att → (b : Attenuation) × Member b earlier.att × Covers b a

Inherits-trans : (p q r : Payload) → Inherits p q → Inherits q r → Inherits p r
Inherits-trans p q r f g a m =
    let (b, mb, cb) = g a m in let (d, md, cd) = f b mb in (d, md, Covers-trans cd cb)

-- The later token expires no later, where both state an expiry.
abbrev pub IsNoLater : Option ℕ → Option ℕ → Type 0
IsNoLater earlier none = Unit
IsNoLater none (some l) = Unit
IsNoLater (some e) (some l) = l ≤ e

-- The token states an expiry.
abbrev pub HasExpiry : Option ℕ → Type 0
HasExpiry none = ⊥
HasExpiry (some e) = Unit

-- Each token is issued by the audience of the one before it, from which it inherits.
abbrev pub IsLinked : Payload → List Payload → Type 0
IsLinked p [] = Unit
IsLinked p (c ∷ rest) = (p.aud ≡ c.iss) × IsNoLater p.exp c.exp × Inherits p c × IsLinked c rest

is_less-IsNoLater : (a b : Option ℕ) → is_less a b ≡ false → IsNoLater a b
is_less-IsNoLater none none h = tt
is_less-IsNoLater (some a) none h = tt
is_less-IsNoLater none (some b) h = tt
is_less-IsNoLater (some a) (some b) h = ground (arith, h)

IsNoLater-trans : (a b c : Option ℕ) → HasExpiry b → IsNoLater a b → IsNoLater b c → IsNoLater a c
IsNoLater-trans a b none x f g = tt
IsNoLater-trans none b (some c) x f g = tt
IsNoLater-trans (some a) none (some c) x f g = absurd x
IsNoLater-trans (some a) (some b) (some c) x f g = omega (arith, f, g)

check_links-IsLinked :
    (i : ℕ) (p : Payload) (rest : List Payload) → check_links i p rest ≡ some none → IsLinked p rest
unfolding check_links
check_links-IsLinked i p [] h = tt
check_links-IsLinked i p (c ∷ rest) h = (
  ground (arith, str_eq_iff p.aud c.iss),
  is_less-IsNoLater p.exp c.exp (ground arith),
  λ a m. is_attenuation_subset-Covers p.att c.att a (ground arith) m,
  check_links-IsLinked (i + 1) c rest (ground arith),
)

-- So every later token inherits from the root, across any number of links.
IsLinked-root :
    (root p : Payload) (rest : List Payload)
    → Inherits root p
    → IsLinked p rest
    → All (Inherits root) rest
IsLinked-root root p [] f l = tt
IsLinked-root root p (c ∷ rest) f (_, _, step, l) =
    let onward = Inherits-trans root p c f step in (onward, IsLinked-root root c rest onward l)

-- Where every token states its expiry, none expires after the root.
IsLinked-expiry :
    (root p : Payload) (rest : List Payload)
    → IsNoLater root.exp p.exp
    → IsLinked p rest
    → HasExpiry p.exp
    → All (λ c. HasExpiry c.exp) rest
    → All (λ c. IsNoLater root.exp c.exp) rest
IsLinked-expiry root p [] f l h hs = tt
IsLinked-expiry root p (c ∷ rest) f (_, step, _, l) h (hc, hs) =
    let onward = IsNoLater-trans root.exp p.exp c.exp h f step in
    (onward, IsLinked-expiry root c rest onward l hc hs)

-- What holds of the payloads of a chain, root first.
abbrev pub IsChain : List Payload → Type 0
IsChain [] = Unit
IsChain (root ∷ rest) =
    IsLinked root rest
    × All (Inherits root) rest
    × (HasExpiry root.exp
        → All (λ c. HasExpiry c.exp) rest
        → All (λ c. IsNoLater root.exp c.exp) rest)

IsNoLater-refl : (e : Option ℕ) → IsNoLater e e
IsNoLater-refl none = tt
IsNoLater-refl (some e) = omega arith

check_chain-IsChain : (ps : List Payload) → check_chain ps ≡ some none → IsChain ps
check_chain-IsChain [] h = tt
check_chain-IsChain (root ∷ rest) h =
    let linked = check_links-IsLinked 1 root rest h in
    (
      linked,
      inherited rest linked,
      λ x xs. IsLinked-expiry root root rest (IsNoLater-refl root.exp) linked x xs,
    )
  where
    inherited : (rest : List Payload) → IsLinked root rest → All (Inherits root) rest
    inherited [] l = tt
    inherited (c ∷ rest) (_, _, step, l) = (step, IsLinked-root root c rest step l)

module _ (k : Codec) (resolve_public_key : String → Option k.PublicKey) where
  -- The issuer's key is known, and the token verifies under it.
  abbrev pub IsVerified : Text × Payload → Type 0
  IsVerified (t, p) =
      (key : k.PublicKey) × (resolve_public_key p.iss ≡ some key)
      × ((verify_ucan k unchecked 0 t key none []).0 ≡ valid)

  check_signatures-IsVerified :
      (i : ℕ) (ds : List (Text × Payload))
      → check_signatures k resolve_public_key i ds ≡ none
      → All IsVerified ds
  unfolding check_signatures
  check_signatures-IsVerified i [] h = tt
  check_signatures-IsVerified i ((t, p) ∷ ds) h = elim (Option-cases (resolve_public_key p.iss)) [
    | inl e ↦ absurd (ground arith)
    | inr (key, e) ↦ ((key, e, ground arith), check_signatures-IsVerified (i + 1) ds (ground arith))
  ]

  check_decoded-IsChain :
      (ds : List (Text × Payload))
      → check_decoded k resolve_public_key ds ≡ some none
      → All IsVerified ds × IsChain (payloads k resolve_public_key ds)
  unfolding check_decoded
  check_decoded-IsChain ds h = elim (Option-cases (check_signatures k resolve_public_key 0 ds)) [
    | inl e ↦ (
      check_signatures-IsVerified 0 ds e,
      check_chain-IsChain (payloads k resolve_public_key ds) (ground arith),
    )
    | inr (r, e) ↦ absurd (ground arith)
  ]

  -- An accepted chain has one to four tokens, all of which decode and verify under the keys of their
  -- issuers; each later one is issued by the audience of the one before it, expires no later than that
  -- one if both state an expiry, and has only permissions that the root's cover; and if every token
  -- of the chain states an expiry, none expires after the root. A token without one is accepted.
  pub validate_chain-IsChain :
      (tokens : List Text)
      → validate_chain k resolve_public_key tokens ≡ some none
      → (1 ≤ length tokens)
        × (length tokens ≤ max_chain_depth + 1)
        × ((ds : List (Text × Payload)) × (decode_all k resolve_public_key tokens ≡ some ds)
            × All IsVerified ds
            × IsChain (payloads k resolve_public_key ds))
  unfolding validate_chain
  validate_chain-IsChain [] h = cc
  validate_chain-IsChain (t ∷ ts) h =
      elim (Option-cases (decode_all k resolve_public_key (t ∷ ts))) [
        | inl e ↦ absurd (ground arith)
        | inr (ds, e) ↦
            let found = check_decoded-IsChain ds (ground arith) in
            (omega arith, ground arith, (ds, e, found.0, found.1))
      ]

-- The payload that `delegateUCAN` signs passes the checks of a next link behind its parent.
pub delegated_payload-check_links :
    (i : ℕ) (parent child : Payload) (token : Text) (audience : String)
    (narrowed : List Attenuation) (expires_at : Option ℕ) (nnc jti : String)
    → delegated_payload parent token audience narrowed expires_at nnc jti ≡ some child
    → check_links i parent (child ∷ []) ≡ some none
unfolding delegated_payload check_links
delegated_payload-check_links i parent child token audience narrowed expires_at nnc jti h =
    ground (arith, h, str_eq_iff parent.aud parent.aud, no_later expires_at parent.exp)
  where
    no_later : (e p : Option ℕ) → is_less p (inherited_expiry e p) ≡ false
    no_later none none = refl
    no_later none (some p) = ground arith
    no_later (some e) none = refl
    no_later (some e) (some p) = ground arith
