-- ===== src/Credit/Owner/Canonical.antt =====
-- Owners that are canonical already: resolving them again changes nothing
-- (src/credit/owner-normalization.ts).
use agentbnb.Prelude.{
  ℕ, ◌≡◌, ap, inl, inr, true, false, ◌||◌, String, List, [], none, some, arith, str_eq, str_eq_iff,
  Bool-cases,
}
use agentbnb.Credit.Db.{Db, AgentRow, treasury}
use agentbnb.Credit.Table.{select_first}
use agentbnb.Credit.Owner.{
  lookup_agent, lookup_agent_by_owner, canonicalize_credit_owner, canonicalize_as,
  resolve_canonical_identity, aliases, migrate_all,
}

-- The reserved owners, the owners that no agent claims, and the ids of agents without a legacy owner.
pub data IsCanonical (o : String) (agents : List AgentRow) : Type 0 where
  reserved : (str_eq o "" || str_eq o treasury) ≡ true → IsCanonical o agents
  unclaimed : resolve_canonical_identity o agents ≡ none → IsCanonical o agents
  agent :
      (a : AgentRow)
      → resolve_canonical_identity o agents ≡ some a
      → a.agent_id ≡ o
      → a.legacy_owner ≡ none
      → IsCanonical o agents

no_aliases : (o : String) (a : AgentRow) → a.agent_id ≡ o → a.legacy_owner ≡ none → aliases o a ≡ []
unfolding aliases
no_aliases o a e l = ground (arith, str_eq_iff o a.agent_id)

steady :
    (o : String) (now : ℕ) (db : Db)
    → IsCanonical o db.agents
    → (str_eq o "" || str_eq o treasury) ≡ false
    → canonicalize_as (resolve_canonical_identity o db.agents) o now db ≡ (o, db)
unfolding migrate_all
steady o now db (reserved r) f = cc
steady o now db (unclaimed e) f = rw e
steady o now db (agent a e i l) f = rw e (rw (no_aliases o a i l) (ap (λ x. (x, db)) i))

pub canonicalize_credit_owner-steady :
    (o : String) (now : ℕ) (db : Db)
    → IsCanonical o db.agents
    → canonicalize_credit_owner o now db ≡ (o, db)
unfolding canonicalize_credit_owner
canonicalize_credit_owner-steady o now db c = elim (Bool-cases (str_eq o "" || str_eq o treasury)) [
  | inl r ↦ rw (r, canonicalize_credit_owner)
  | inr other ↦ rw (other, canonicalize_credit_owner) (steady o now db c other)
]

-- Where no agent is registered, every owner is canonical.
no_agents : (o : String) → resolve_canonical_identity o [] ≡ none
unfolding resolve_canonical_identity lookup_agent lookup_agent_by_owner select_first
no_agents o = ground arith

pub all-IsCanonical : (o : String) → IsCanonical o []
all-IsCanonical o = unclaimed (no_agents o)
