-- ===== src/Identity/Revocation/Recorded.antt =====
-- What the registry of src/identity/did-revocation.ts knows after a sequence of revocations.
use agentbnb.Prelude.{
  ◌≡◌, refl, ap, ◌∙◌, ◌&&◌, String, List, [], ◌∷◌, Option, some, none, arith, inl, inr, Bool-cases,
  str_eq, get, put, get-put, occurrences-keys-put, occurrences, if◌then◌else◌,
}
use agentbnb.Identity.Signed.{Scheme}
use agentbnb.Identity.Revocation.{
  Revocation, RevocationRecord, Registry, revoke, verify_revocation_record, is_did_revoked,
  get_revocation, list_revoked,
}

module _ (s : Scheme Revocation) where
  unfoldable pub run_revocations : List RevocationRecord → Registry → Registry
  unfolding revoke
  run_revocations [] records = records
  run_revocations (r ∷ rs) records = run_revocations rs (revoke s r records).1

  -- The last record for the DID with a signature that verifies, or else what there was.
  unfoldable pub last_valid :
      String → List RevocationRecord → Option RevocationRecord → Option RevocationRecord
  unfolding verify_revocation_record
  last_valid did [] before = before
  last_valid did (r ∷ rs) before =
      last_valid did rs
        (if verify_revocation_record s r && str_eq r.payload.did did then some r else before)

  get-revoke :
      (did : String) (r : RevocationRecord) (records : Registry)
      → get_revocation did (revoke s r records).1 ≡ (
          if verify_revocation_record s r && str_eq r.payload.did did
          then some r
          else get_revocation did records)
  unfolding revoke get_revocation
  get-revoke did r records = ground (arith, get-put did r.payload.did r records)

  get-run_revocations :
      (did : String) (rs : List RevocationRecord) (records : Registry)
      → get_revocation did (run_revocations rs records)
        ≡ last_valid did rs (get_revocation did records)
  unfolding run_revocations last_valid
  get-run_revocations did [] records = refl
  get-run_revocations did (r ∷ rs) records =
      get-run_revocations did rs (revoke s r records).1
      ∙ ap (last_valid did rs) (get-revoke did r records)

  -- A DID is listed once if it is revoked, and else not.
  abbrev pub IsListed : Registry → Type 0
  IsListed records =
      (did : String)
      → occurrences did (list_revoked records) ≡ (if is_did_revoked did records then 1 else 0)

  put-IsListed :
      (k : String) (r : RevocationRecord) (records : Registry)
      → IsListed records
      → IsListed (put k r records)
  unfolding list_revoked is_did_revoked
  put-IsListed k r records h did = elim (Bool-cases (str_eq k did)) [
    | inl e ↦ ground (arith, h did, occurrences-keys-put did k r records, get-put did k r records)
    | inr e ↦ ground (arith, h did, occurrences-keys-put did k r records, get-put did k r records)
  ]

  run_revocations-IsListed :
      (rs : List RevocationRecord) (records : Registry)
      → IsListed records
      → IsListed (run_revocations rs records)
  unfolding run_revocations revoke
  run_revocations-IsListed [] records h = h
  run_revocations-IsListed (r ∷ rs) records h = elim (Bool-cases (verify_revocation_record s r)) [
    | inl e ↦
        rw (e, run_revocations, revoke) (run_revocations-IsListed rs _ (put-IsListed _ r records h))
    | inr e ↦ rw (e, run_revocations, revoke) (run_revocations-IsListed rs _ h)
  ]

  nothing-IsListed : IsListed []
  unfolding list_revoked is_did_revoked occurrences get
  nothing-IsListed did = refl

  -- After any sequence of revocations of an empty registry, the record of a DID is the last one given
  -- for it whose signature verifies, and a DID is listed once if there is one and else not.
  pub run_revocations_lem :
      (rs : List RevocationRecord) (did : String)
      → (get_revocation did (run_revocations rs []) ≡ last_valid did rs none)
        × (occurrences did (list_revoked (run_revocations rs []))
            ≡ (if is_did_revoked did (run_revocations rs []) then 1 else 0))
  unfolding get_revocation get
  run_revocations_lem rs did =
      (get-run_revocations did rs [], run_revocations-IsListed rs [] nothing-IsListed did)
