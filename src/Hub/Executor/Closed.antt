-- ===== src/Hub/Executor/Closed.antt =====
-- The escrow of a call of an API is closed when the call returns (`executeDirectApi` of
-- src/hub-agent/executor.ts).
use agentbnb.Prelude.{
  ℕ, ◌<◌, ◌⊎◌, ◌≡◌, refl, sym, ap, ◌∙◌, inl, inr, true, false, String, none, some, arith, str_eq,
  ltb, Bool-cases, subst, if◌then◌else◌,
}
use agentbnb.Credit.Types.{EscrowStatus, held, settled, released, lifecycle, insufficient_credits}
use agentbnb.Credit.Db.{Db, Result, ok, err}
use agentbnb.Credit.Supply.{HasKeys, terms}
use agentbnb.Credit.Owner.Canonical.{IsCanonical}
use agentbnb.Credit.Escrow.{hold_escrow}
use agentbnb.Credit.Escrow.Opened.{affordable}
use agentbnb.Credit.Escrow.Hold.{
  payer, searched, voucher, searched-Keeps, hold_escrow-Holds, hold_escrow_conserves,
}
use agentbnb.Credit.Escrow.Ended.{release_closes, settle_closes}
use agentbnb.Hub.World.{
  World, HubAgent, Outcome, returned, raised, credit_fault, call_fault, attempt,
}
use agentbnb.Hub.Executor.{
  ApiReply, api_success, api_failure, api_exception, ExecutionResult, api_result, failure,
  api_failed, threw, card_id_of, hold_price, answered, give_back, execute_direct_api,
}

-- What the caller gets for a reply of the API, and how the escrow ends.
abbrev pub result_of : ApiReply → ExecutionResult
result_of (api_success v) = api_result v
result_of (api_failure m) = failure (api_failed m)
result_of (api_exception m) = failure (threw (call_fault m))

abbrev pub end_of : ApiReply → EscrowStatus
end_of (api_success v) = settled
end_of (api_failure m) = released
end_of (api_exception m) = released

pub record IsClosed (id : String) (amount : ℕ) (r : ApiReply) (q : Outcome ExecutionResult × World)
    : Type 0 where
  pub returns : q.0 ≡ returned (result_of r)
  pub keys : HasKeys q.1.credit_db
  pub ended : terms id q.1.credit_db ≡ some (amount, lifecycle (end_of r))

module _ (execute_api : String → String → ApiReply) (id job_id : String) (now later : ℕ)
    (agent : HubAgent) (amount : ℕ) where
  caught-IsClosed :
      (w : World) (r : ApiReply)
      → HasKeys w.credit_db
      → IsCanonical agent.agent_id w.credit_db.agents
      → terms id w.credit_db ≡ some (amount, lifecycle held)
      → IsClosed id amount r (
          attempt
            (answered execute_api id job_id now later r agent (some id))
            (give_back execute_api id job_id now later agent (some id))
            w)
  caught-IsClosed w (api_success v) keys canonical open_terms =
      let done =
        settle_closes id amount later w.credit_db keys open_terms agent.agent_id canonical in
      rw done.runs (record { returns = refl; keys = done.holds.0; ended = done.holds.1 })
  caught-IsClosed w (api_failure m) keys canonical open_terms =
      let done = release_closes id amount later w.credit_db keys open_terms in
      rw done.runs (record { returns = refl; keys = done.holds.0; ended = done.holds.1 })
  caught-IsClosed w (api_exception m) keys canonical open_terms =
      let done = release_closes id amount later w.credit_db keys open_terms in
      rw done.runs (record { returns = refl; keys = done.holds.0; ended = done.holds.1 })

  held-IsClosed :
      (skill_id requester : String) (w : World) (after : Db)
      → str_eq requester "" ≡ false
      → 0 < amount
      → hold_escrow requester amount (card_id_of agent.agent_id) id now w.credit_db ≡ (ok id, after)
      → HasKeys after
      → IsCanonical agent.agent_id after.agents
      → terms id after ≡ some (amount, lifecycle held)
      → IsClosed id amount (execute_api agent.agent_id skill_id) (
          execute_direct_api execute_api id job_id now later skill_id agent
            (some requester)
            amount
            w)
  unfolding execute_direct_api hold_price
  held-IsClosed skill_id requester w after named positive runs keys canonical open_terms =
      let is_positive : ltb 0 amount ≡ true = ground arith in
      rw (named, is_positive, runs, hold_price, execute_direct_api)
        (caught-IsClosed (record w { credit_db = after }) _ keys canonical open_terms)

  refused-Closed :
      (skill_id requester : String) (w : World)
      → str_eq requester "" ≡ false
      → 0 < amount
      → (hold_escrow requester amount (card_id_of agent.agent_id) id now w.credit_db).0
        ≡ err insufficient_credits
      → terms id (hold_escrow requester amount (card_id_of agent.agent_id) id now w.credit_db).1
        ≡ none
      → (let q =
            execute_direct_api execute_api id job_id now later skill_id agent
              (some requester)
              amount
              w in
          (q.0 ≡ raised (credit_fault insufficient_credits)) × (terms id q.1.credit_db ≡ none))
  unfolding execute_direct_api hold_price
  refused-Closed skill_id requester w named positive fails none_left =
      let is_positive : ltb 0 amount ≡ true = ground arith in
      let runs =
        ap {B = Result String × Db}
          (λ r.
            (r, (hold_escrow requester amount (card_id_of agent.agent_id) id now w.credit_db).1))
          fails in
      rw (named, is_positive, runs, hold_price, execute_direct_api) (refl, none_left)

  -- A call of an API that has a price and a named requester, with unique keys, a canonical agent and
  -- a fresh escrow id, leaves no credits in escrow: it returns what comes of the API with its
  -- escrow of the whole price over, settled if the API succeeded and released otherwise; or it
  -- throws for the lack of credits and has no escrow.
  pub execute_direct_api_closes :
      (skill_id requester : String) (w : World)
      → str_eq requester "" ≡ false
      → 0 < amount
      → HasKeys w.credit_db
      → IsCanonical agent.agent_id w.credit_db.agents
      → terms id w.credit_db ≡ none
      → (let q =
            execute_direct_api execute_api id job_id now later skill_id agent
              (some requester)
              amount
              w in
          IsClosed id amount (execute_api agent.agent_id skill_id) q
          ⊎ ((q.0 ≡ raised (credit_fault insufficient_credits)) × (terms id q.1.credit_db ≡ none)))
  unfolding execute_direct_api hold_price
  execute_direct_api_closes skill_id requester w named positive keys canonical fresh =
      let card = card_id_of agent.agent_id in
      let db = w.credit_db in
      let covered =
        affordable (payer requester amount card id now db keys fresh) amount
          (voucher requester amount card id now db keys fresh)
          (searched requester amount card id now db keys fresh) in
      let (outcome, after, kept, same) =
        hold_escrow_conserves requester amount card id now db keys fresh in
      elim (Bool-cases covered) [
        | inl h ↦
            let done = hold_escrow-Holds requester amount card id now db keys fresh h in
            let agents =
              done.holds.1.same_agents
              ∙ (searched-Keeps requester amount card id now db keys fresh).same_agents in
            inl (
              held-IsClosed skill_id requester w done.after named positive
                (done.runs ∙ ap (λ a. (ok a, done.after)) done.holds.0) done.holds.1.keys
                (subst (IsCanonical agent.agent_id) (sym agents) canonical) done.holds.1.has_terms)
        | inr h ↦ inr (
            refused-Closed skill_id requester w named positive
              (outcome ∙ ap (λ b. if b then ok id else err insufficient_credits) h)
              (after ∙ ap (λ b. if b then some (amount, lifecycle held) else none) h))
      ]
