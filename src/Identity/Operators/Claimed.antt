-- ===== src/Identity/Operators/Claimed.antt =====
-- A claimed agent stays with its operator (src/identity/operators.ts).
use agentbnb.Prelude.{
  ℕ, ◌≡◌, refl, sym, ap, ◌∙◌, false, String, List, [], ◌∷◌, Option, some, arith, str_eq, str_eq_iff,
  inl, inr, Bool-cases, Option-cases, subst,
}
use agentbnb.Credit.Table.{
  select_first, update_where, column, select_first-update_where_self,
  select_first-update_where_other,
}
use agentbnb.Identity.Agents.{
  AgentRecord, stored, has_id, lookup_agent, updated, update_agent_record,
}
use agentbnb.Identity.Operators.{
  ClaimRequest, Signing, ClaimResult, claimed, is_taken, set_operator, claim_outcome, claim_agent,
}

-- The operator of the agent, if it is registered.
unfoldable pub operator_of : String → List AgentRecord → Option (Option String)
operator_of agent_id rows = column (λ a. a.operator_id) (lookup_agent agent_id rows)

some_injective : {A : Type 0} {a b : A} → some a ≡ some b → a ≡ b
some_injective h = cc

not_taken :
    (op claimant : String)
    → str_eq op "" ≡ false
    → is_taken (some op) claimant ≡ false
    → claimant ≡ op
not_taken op claimant named free = sym ((str_eq_iff op claimant).0 (ground (arith, named, free)))

update_found :
    (id op : String) (now : ℕ) (rows : List AgentRecord) (a : AgentRecord)
    → select_first (has_id id) rows ≡ some a
    → update_agent_record id (set_operator op) now rows
      ≡ (stored tt, update_where (has_id id) (updated (set_operator op) now) rows)
unfolding update_agent_record
update_found id op now rows a h = rw (h, update_agent_record) refl

module _ (s : Signing) where
  unfoldable pub run_claims : List (ClaimRequest × String × ℕ) → List AgentRecord → List AgentRecord
  run_claims [] rows = rows
  run_claims ((claim, key, now) ∷ rest) rows = run_claims rest (claim_agent s claim key now rows).1

  -- What a claim does to the table: nothing, or the operator of a free agent is set.
  data Claims (c : ClaimRequest) (now : ℕ) (rows : List AgentRecord)
      : ClaimResult × List AgentRecord → Type 0 where
    turned_down : (r : ClaimResult) → (r ≡ claimed → ⊥) → Claims c now rows (r, rows)
    set :
        (a : AgentRecord)
        → lookup_agent c.payload.agent_id rows ≡ some a
        → is_taken a.operator_id c.payload.operator_id ≡ false
        → Claims c now rows (
          claimed,
          update_where
              (has_id c.payload.agent_id)
              (updated (set_operator c.payload.operator_id) now)
              rows,
        )

  claim_agent-Claims :
      (c : ClaimRequest) (key : String) (now : ℕ) (rows : List AgentRecord)
      → Claims c now rows (claim_agent s c key now rows)
  unfolding claim_agent update_agent_record lookup_agent
  claim_agent-Claims c key now rows = elim (Bool-cases (s.verify c.payload c.signature key)) [
    | inr e ↦ rw (e, claim_agent) (turned_down _ (λ h. cc))
    | inl e ↦ elim (Option-cases (select_first (has_id c.payload.agent_id) rows)) [
      | inl f ↦ rw (e, f, claim_agent, lookup_agent) (turned_down _ (λ h. cc))
      | inr (a, f) ↦ elim (Bool-cases (is_taken a.operator_id c.payload.operator_id)) [
        | inl g ↦ rw (e, f, g, claim_agent, lookup_agent) (turned_down _ (λ h. cc))
        | inr g ↦
            rw (e, f, g, claim_agent, lookup_agent)
              (subst (λ q. Claims c now rows (claim_outcome q))
                (sym (update_found c.payload.agent_id c.payload.operator_id now rows a f))
                (set a f g))
      ]
    ]
  ]

  set_operator_of :
      (id op : String) (now : ℕ) (rows : List AgentRecord) (a : AgentRecord)
      → lookup_agent id rows ≡ some a
      → operator_of id (update_where (has_id id) (updated (set_operator op) now) rows)
        ≡ some (some op)
  unfolding operator_of lookup_agent
  set_operator_of id op now rows a found = ap (column (λ a. a.operator_id)) (
      select_first-update_where_self (has_id id) (updated (set_operator op) now) rows a (λ r. refl)
        found)

  -- A claim leaves the operator of an agent that has one.
  Claims-operator_of :
      (id op : String) (c : ClaimRequest) (now : ℕ) (rows : List AgentRecord)
      (q : ClaimResult × List AgentRecord)
      → Claims c now rows q
      → str_eq op "" ≡ false
      → operator_of id rows ≡ some (some op)
      → operator_of id q.1 ≡ some (some op)
  unfolding operator_of lookup_agent
  Claims-operator_of id op c now rows _ (turned_down r h) named owned = owned
  Claims-operator_of id op c now rows _ (set a found free) named owned =
      elim (Bool-cases (str_eq c.payload.agent_id id)) [
        | inr e ↦
            ap (column (λ a. a.operator_id)) (
              select_first-update_where_other (has_id c.payload.agent_id) (has_id id)
                (updated (set_operator c.payload.operator_id) now) rows
                λ r h. ground (
                  arith,
                  e,
                  h,
                  str_eq_iff r.agent_id c.payload.agent_id,
                  str_eq_iff r.agent_id id,
                  str_eq_iff c.payload.agent_id id,
                ))
            ∙ owned
        | inl e ↦
            let same_id : c.payload.agent_id ≡ id = (str_eq_iff c.payload.agent_id id).0 e in
            let has_operator : a.operator_id ≡ some op = some_injective (
              sym (ap (column (λ a. a.operator_id)) found)
              ∙ ap (λ i. operator_of i rows) same_id
              ∙ owned) in
            let same_op : c.payload.operator_id ≡ op =
              not_taken op c.payload.operator_id named
                (subst (λ o. is_taken o c.payload.operator_id ≡ false) has_operator free) in
            subst
              (λ i.
                operator_of i (
                  update_where (has_id c.payload.agent_id)
                    (updated (set_operator c.payload.operator_id) now) rows)
                ≡ some (some op))
              same_id
              (set_operator_of c.payload.agent_id c.payload.operator_id now rows a found
                ∙ ap (λ o. some (some o)) same_op)
      ]

  run_claims-operator_of :
      (id op : String) (claims : List (ClaimRequest × String × ℕ)) (rows : List AgentRecord)
      → str_eq op "" ≡ false
      → operator_of id rows ≡ some (some op)
      → operator_of id (run_claims claims rows) ≡ some (some op)
  unfolding run_claims
  run_claims-operator_of id op [] rows named owned = owned
  run_claims-operator_of id op ((c, key, now) ∷ rest) rows named owned =
      run_claims-operator_of id op rest _ named
        (Claims-operator_of id op c now rows _ (claim_agent-Claims c key now rows) named owned)

  Claims-set :
      (c : ClaimRequest) (now : ℕ) (rows : List AgentRecord) (q : ClaimResult × List AgentRecord)
      → Claims c now rows q
      → q.0 ≡ claimed
      → operator_of c.payload.agent_id q.1 ≡ some (some c.payload.operator_id)
  Claims-set c now rows _ (turned_down r never) h = absurd (never h)
  Claims-set c now rows _ (set a found free) h =
      set_operator_of c.payload.agent_id c.payload.operator_id now rows a found

  -- An agent that an operator with a name has claimed with success belongs to that operator, and still
  -- does after any sequence of further claims, by whatever operators and keys.
  pub claim_agent_stays :
      (c : ClaimRequest) (key : String) (now : ℕ) (rows : List AgentRecord)
      (claims : List (ClaimRequest × String × ℕ))
      → str_eq c.payload.operator_id "" ≡ false
      → (claim_agent s c key now rows).0 ≡ claimed
      → operator_of c.payload.agent_id (run_claims claims (claim_agent s c key now rows).1)
        ≡ some (some c.payload.operator_id)
  claim_agent_stays c key now rows claims named success =
      run_claims-operator_of c.payload.agent_id c.payload.operator_id claims _ named
        (Claims-set c now rows _ (claim_agent-Claims c key now rows) success)
