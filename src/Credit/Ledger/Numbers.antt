-- ===== src/Credit/Ledger/Numbers.antt =====
-- The numbers of the providers (src/credit/ledger.ts): `registerProvider` and `getProviderNumber`.
use agentbnb.Prelude.{
  ℕ, ◌+◌, ◌≤◌, ◌<◌, ◌≡◌, refl, ap, ◌∙◌, inl, inr, ◌==◌, String, List, [], ◌∷◌, Option, none, some,
  arith, str_eq_iff, Option-cases,
}
use agentbnb.Credit.Table.{select_first, count, count-insert, select_first-insert_new}
use agentbnb.Credit.Db.{Db, ProviderRow, ok, provider_of}
use agentbnb.Credit.Owner.Canonical.{IsCanonical, canonicalize_credit_owner-steady}
use agentbnb.Credit.Ledger.{
  max_provider_number, number_of, enroll, register_provider, get_provider_number,
}

-- No two rows have the same number.
abbrev pub AreDistinct : List ProviderRow → Type 0
AreDistinct rows = (n : ℕ) → count (λ r. r.provider_number == n) rows ≤ 1

above_max :
    (n : ℕ) (rows : List ProviderRow)
    → max_provider_number rows < n
    → count (λ r. r.provider_number == n) rows ≡ 0
unfolding max_provider_number count
above_max n [] h = refl
above_max n (r ∷ rs) h = ground (arith, above_max n rs)

enroll-AreDistinct :
    (o : String) (now : ℕ) (rows : List ProviderRow)
    → AreDistinct rows
    → AreDistinct (enroll o now rows)
enroll-AreDistinct o now rows h n = elim (Option-cases (select_first (provider_of o) rows)) [
  | inl e ↦ ground (
    arith,
    h n,
    above_max n rows,
    count-insert (λ r. r.provider_number == n)
        (record { owner = o; provider_number = max_provider_number rows + 1; registered_at = now })
        rows,
  )
  | inr (r, e) ↦ ground (arith, h n)
]

-- The number of an owner with this one: a new owner gets the next number.
abbrev pub assigned : Option ℕ → List ProviderRow → Option ℕ
assigned none rows = some (max_provider_number rows + 1)
assigned (some n) rows = some n

enroll-number :
    (o : String) (now : ℕ) (rows : List ProviderRow)
    → number_of (select_first (provider_of o) (enroll o now rows))
      ≡ assigned (number_of (select_first (provider_of o) rows)) rows
enroll-number o now rows = elim (Option-cases (select_first (provider_of o) rows)) [
  | inl e ↦ ground (
    arith,
    str_eq_iff o o,
    select_first-insert_new (provider_of o)
        (record { owner = o; provider_number = max_provider_number rows + 1; registered_at = now })
        rows e,
  )
  | inr (r, e) ↦ ground arith
]

enroll_again :
    (o : String) (now later : ℕ) (rows : List ProviderRow)
    → enroll o later (enroll o now rows) ≡ enroll o now rows
enroll_again o now later rows = elim (Option-cases (select_first (provider_of o) rows)) [
  | inl e ↦ ground (
    arith,
    str_eq_iff o o,
    select_first-insert_new (provider_of o)
        (record { owner = o; provider_number = max_provider_number rows + 1; registered_at = now })
        rows e,
  )
  | inr (r, e) ↦ ground arith
]

module _ (owner : String) (now : ℕ) (db : Db) (canonical : IsCanonical owner db.agents) where
  register_provider_runs : register_provider owner now db ≡ (
    ok (number_of (select_first (provider_of owner) (enroll owner now db.providers))),
    record db { providers = enroll owner now db.providers },
  )
  unfolding register_provider
  register_provider_runs =
      ap
        (λ q. (
          ok (number_of (select_first (provider_of q.0) (enroll q.0 now q.1.providers))),
          record q.1 { providers = enroll q.0 now q.1.providers },
        ))
        (canonicalize_credit_owner-steady owner now db canonical)

  get_provider_number_runs :
      get_provider_number owner now db
      ≡ (ok (number_of (select_first (provider_of owner) db.providers)), db)
  unfolding get_provider_number
  get_provider_number_runs =
      ap (λ q. (ok (number_of (select_first (provider_of q.0) q.1.providers)), q.1))
        (canonicalize_credit_owner-steady owner now db canonical)

-- Where no two providers share a number, registering a canonical owner keeps it so. The call returns the
-- number that the owner has, or one more than every number in use; it is the number that is looked up
-- afterwards, and registering again returns it and changes nothing.
pub register_provider_distinct :
    (owner : String) (now later : ℕ) (db : Db)
    → IsCanonical owner db.agents
    → AreDistinct db.providers
    → (let (result, db') = register_provider owner now db in
        AreDistinct db'.providers
        × (result
            ≡ ok
                (assigned (number_of (select_first (provider_of owner) db.providers)) db.providers))
        × (get_provider_number owner later db' ≡ (result, db'))
        × (register_provider owner later db' ≡ (result, db')))
register_provider_distinct owner now later db c distinct =
    let rows = enroll owner now db.providers in
    let after = record db { providers = rows } in
    rw (register_provider_runs owner now db c) (
      enroll-AreDistinct owner now db.providers distinct,
      ap ok (enroll-number owner now db.providers),
      get_provider_number_runs owner later after c,
      register_provider_runs owner later after c
          ∙ ap
              (λ ps. (
                ok (number_of (select_first (provider_of owner) ps)),
                record db { providers = ps },
              ))
              (enroll_again owner now later db.providers),
    )
