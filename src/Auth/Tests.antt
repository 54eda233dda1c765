-- ===== src/Auth/Tests.antt =====
-- Runs of the authorisation code of src/auth at concrete tokens, patterns and caches.
use agentbnb.Prelude.{
  ℕ, ◌+◌, ◌≤◌, ◌≡◌, ◌≢◌, refl, true, false, String, List, [], ◌∷◌, Option, none, some, zero, suc,
  All, ◌↔◌, arith, Text, codes, same_text, split_on, length, if◌then◌else◌,
}
use agentbnb.Auth.Resources.{is_attenuation, match_resource, match_segments}
use agentbnb.Auth.Resources.Meaning.{Stands, match_segments_iff}
use agentbnb.Auth.Replay.{Cache, has, check_and_record_jti}
use agentbnb.Auth.Replay.Bounds.{IsDue}
use agentbnb.Auth.Revocation.{set_has, is_issuer_revoked, RevocationSet, empty_revocations}
use agentbnb.Auth.Token.{Codec, Attenuation, Payload, valid, verify_ucan, decode_ucan, create_token}
use agentbnb.Auth.Token.Verify.{
  checked, IsSigned, IsUnrevoked, IsFirstUse, verify_ucan_sound, verify_ucan_once,
}
use agentbnb.Auth.Delegation.{action_level, validate_chain, max_chain_depth, decode_all, payloads}
use agentbnb.Auth.Delegation.Narrowing.{is_attenuation_sound}
use agentbnb.Auth.Delegation.Chain.{IsVerified, IsChain, validate_chain-IsChain}

abbrev broad : Text
broad = codes "agentbnb://kb/portfolio/**"

abbrev narrow : Text
narrow = codes "agentbnb://kb/portfolio/*"

abbrev target : Text
target = codes "agentbnb://kb/portfolio/BTC"

is_attenuation_sound_example : match_resource broad target ≡ some true
unfolding is_attenuation match_resource same_text
is_attenuation_sound_example = is_attenuation_sound broad narrow target refl refl

abbrev read_all : Attenuation
read_all = record { resource = broad; can = "write" }

abbrev read_one : Attenuation
read_one = record { resource = narrow; can = "read" }

abbrev root : Payload
root = record {
  iss = "r";
  aud = "a";
  exp = some 100;
  nbf = none;
  nnc = some "n";
  jti = some "j";
  att = read_all ∷ [];
  prf = [];
  escrow_id = none;
}

abbrev leaf : Payload
leaf = record {
  iss = "a";
  aud = "b";
  exp = some 90;
  nbf = none;
  nnc = some "m";
  jti = some "k";
  att = read_one ∷ [];
  prf = [];
  escrow_id = none;
}

-- A codec for these two payloads, whose signature is the length of the input behind the key.
abbrev small : Codec
small = record {
  PublicKey = ℕ;
  PrivateKey = ℕ;
  header = codes "h";
  header_ok = λ t. same_text t (codes "h");
  encode_payload = λ p. codes p.iss;
  payload_of = λ t.
      if same_text t (codes "r")
      then some root
      else if same_text t (codes "a")
      then some leaf
      else none;
  sign = λ input key. (key + length input) ∷ [];
  verify_signature = λ input key s. some (same_text s ((key + length input) ∷ []));
}

abbrev root_token : Text
root_token = create_token small root 100

abbrev leaf_token : Text
leaf_token = create_token small leaf 100

abbrev no_one : RevocationSet
no_one = empty_revocations

verify_ucan_sound_example :
    IsSigned small 5 (split_on 46 root_token) 100
    × ((p : Payload) × (decode_ucan small root_token ≡ some p)
        × IsUnrevoked p (some no_one)
        × IsFirstUse small p [] (verify_ucan small checked 5 root_token 100 (some no_one) []).1)
unfolding verify_ucan split_on same_text is_issuer_revoked set_has empty_revocations
    check_and_record_jti
verify_ucan_sound_example = verify_ucan_sound small 5 root_token 100 (some no_one) [] refl

verify_ucan_once_example :
    (verify_ucan small checked 6 root_token 100 none
      (verify_ucan small checked 5 root_token 100 (some no_one) []).1).0
    ≢ valid
unfolding verify_ucan split_on same_text is_issuer_revoked set_has empty_revocations
    check_and_record_jti
verify_ucan_once_example = verify_ucan_once small 5 6 root_token 100 100 (some no_one) none [] refl

abbrev key_of : String → Option ℕ
key_of name = some 100

abbrev chain : List Text
chain = root_token ∷ leaf_token ∷ []

validate_chain-IsChain_example :
    (1 ≤ length chain)
    × (length chain ≤ max_chain_depth + 1)
    × ((ds : List (Text × Payload)) × (decode_all small key_of chain ≡ some ds)
        × All (IsVerified small key_of) ds
        × IsChain (payloads small key_of ds))
unfolding validate_chain decode_ucan split_on same_text verify_ucan is_attenuation action_level
validate_chain-IsChain_example = validate_chain-IsChain small key_of chain refl

abbrev handed_on : Payload
handed_on = record {
  iss = "a";
  aud = "b";
  exp = some 100;
  nbf = none;
  nnc = some "m";
  jti = some "k";
  att = read_one ∷ [];
  prf = root_token ∷ [];
  escrow_id = none;
}

match_segments_iff_example :
    (match_segments (codes "**" ∷ codes "x" ∷ []) (codes "a" ∷ codes "x" ∷ []) ≡ true)
    ↔ Stands (codes "**" ∷ codes "x" ∷ []) (codes "a" ∷ codes "x" ∷ [])
match_segments_iff_example =
    match_segments_iff (codes "**" ∷ codes "x" ∷ []) (codes "a" ∷ codes "x" ∷ [])

abbrev seen : Cache
seen = (record { jti = "j"; exp = some 9 }) ∷ (record { jti = "k"; exp = some 5 }) ∷ []

-- A cache of many entries of one id that expire at 5.
unfoldable due_entries : ℕ → Cache
due_entries zero = []
due_entries (suc n) = (record { jti = "old"; exp = some 5 }) ∷ due_entries n

length-due_entries : (n : ℕ) → length (due_entries n) ≡ n
unfolding due_entries
length-due_entries zero = refl
length-due_entries (suc n) = omega (arith, length-due_entries n)

has-due_entries : (n : ℕ) → has "new" (due_entries n) ≡ false
unfolding due_entries has
has-due_entries zero = refl
has-due_entries (suc n) = has-due_entries n

due_entries-IsDue : (n : ℕ) → IsDue "old" 5 (due_entries n)
unfolding due_entries
due_entries-IsDue zero = tt
due_entries-IsDue (suc n) = (λ e. refl, due_entries-IsDue n)

abbrev full : Cache
full = due_entries 10_000
