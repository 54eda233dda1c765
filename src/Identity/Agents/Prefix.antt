-- ===== src/Identity/Agents/Prefix.antt =====
-- The prefix of agents that the hub registers (`canonicalizeAgentId` of
-- src/identity/agent-identity.ts).
use agentbnb.Prelude.{
  ◌≡◌, refl, sym, ap, ◌∙◌, false, String, List, none, some, str_eq, str_eq_iff, inl, inr,
  Bool-cases,
}
use agentbnb.Identity.Agents.{
  AgentRecord, resolve_canonical_identity, after_prefix, hub_prefix, canonicalize_stripped,
  canonicalize_agent_id,
}

none_is_none : {s : String} → ¬ (none ≡ some s)
none_is_none h = cc

prefixed_not_empty : (s t : String) → after_prefix hub_prefix t ≡ some s → str_eq t "" ≡ false
unfolding after_prefix
prefixed_not_empty s t h = elim (Bool-cases (str_eq t "")) [
  | inl e ↦ absurd (none_is_none (sym (ap (after_prefix hub_prefix) ((str_eq_iff t "").0 e)) ∙ h))
  | inr e ↦ e
]

-- An id that is a bare id behind the prefix of the hub has the same canonical form as the bare id,
-- if the bare id is not empty and does not start with the prefix itself, and no agent is
-- known by the prefixed form.
pub canonicalize_agent_id-prefix :
    (s hub_id : String) (rows : List AgentRecord)
    → after_prefix hub_prefix hub_id ≡ some s
    → str_eq s "" ≡ false
    → after_prefix hub_prefix s ≡ none
    → (resolve_canonical_identity hub_id rows).resolved ≡ false
    → canonicalize_agent_id hub_id rows ≡ canonicalize_agent_id s rows
unfolding canonicalize_agent_id canonicalize_stripped
canonicalize_agent_id-prefix s hub_id rows prefixed named bare unknown =
    let not_empty = prefixed_not_empty s hub_id prefixed in
    elim (Bool-cases (resolve_canonical_identity s rows).resolved) [
      | inl e ↦
          rw (not_empty, named, prefixed, bare, canonicalize_agent_id, canonicalize_stripped, e)
            refl
      | inr e ↦
          rw
            (
              not_empty, named, prefixed, bare, canonicalize_agent_id, canonicalize_stripped, e,
              unknown,
            )
            refl
    ]
