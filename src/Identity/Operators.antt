-- ===== src/Identity/Operators.antt =====
-- src/identity/operators.ts: an operator claims an agent by a signed request. The signatures of
-- src/credit/signing.ts, which come from Node, are the record `Signing`, on the payload of a claim.
pub mod Claimed
use agentbnb.Prelude.{
  ℕ, Bool, true, false, ◌&&◌, not, String, List, Option, none, some, str_eq, if◌then◌else◌,
}
use agentbnb.Credit.Table.{select_first, insert_or_ignore}
use agentbnb.Identity.Agents.{
  AgentRecord, AgentUpdates, lookup_agent, update_agent_record, Stored, stored, refused,
}

pub record OperatorRecord : Type 0 where
  pub operator_id : String
  pub display_name : String
  pub public_key : String
  pub created_at : ℕ

abbrev operator_at : String → OperatorRecord → Bool
operator_at operator_id o = str_eq o.operator_id operator_id

-- The row that is there afterwards.
unfoldable pub register_operator :
    String → String → String → ℕ → List OperatorRecord → Option OperatorRecord × List OperatorRecord
register_operator operator_id display_name public_key now rows =
    let after =
      insert_or_ignore (operator_at operator_id)
        (record {
          operator_id = operator_id;
          display_name = display_name;
          public_key = public_key;
          created_at = now;
        })
        rows in
    (select_first (operator_at operator_id) after, after)

unfoldable pub get_operator : String → List OperatorRecord → Option OperatorRecord
get_operator operator_id rows = select_first (operator_at operator_id) rows

-- The payload of a claim; the action is always 'claim'.
pub record ClaimPayload : Type 0 where
  pub agent_id : String
  pub operator_id : String
  pub timestamp : ℕ

pub record ClaimRequest : Type 0 where
  pub payload : ClaimPayload
  pub signature : String

-- `verify` takes the public key as hexadecimal digits.
pub record Signing : Type 0 where
  pub sign : ClaimPayload → String → String
  pub verify : ClaimPayload → String → String → Bool

pub data ClaimResult : Type 0 where
  claimed invalid_signature unknown_agent claimed_by_another : ClaimResult
  update_failed : ClaimResult

-- `agent.operator_id && agent.operator_id !== claim.operator_id`.
abbrev pub is_taken : Option String → String → Bool
is_taken none operator_id = false
is_taken (some o) operator_id = not (str_eq o "") && not (str_eq o operator_id)

abbrev pub set_operator : String → AgentUpdates
set_operator operator_id = record {
  display_name = none;
  operator_id = some (some operator_id);
  server_id = none;
  legacy_owner = none;
}

abbrev pub claim_outcome : Stored (Unit {0}) × List AgentRecord → ClaimResult × List AgentRecord
claim_outcome (stored u, rows) = (claimed, rows)
claim_outcome (refused e, rows) = (update_failed, rows)

module _ (s : Signing) where
  unfoldable pub claim_agent :
      ClaimRequest → String → ℕ → List AgentRecord → ClaimResult × List AgentRecord
  claim_agent claim operator_public_key now rows =
      if not (s.verify claim.payload claim.signature operator_public_key)
      then (invalid_signature, rows)
      else elim (lookup_agent claim.payload.agent_id rows) [
        | none ↦ (unknown_agent, rows)
        | some agent ↦
            if is_taken agent.operator_id claim.payload.operator_id
            then (claimed_by_another, rows)
            else claim_outcome (
                update_agent_record claim.payload.agent_id (set_operator claim.payload.operator_id)
                  now rows)
      ]

  unfoldable pub create_claim_request : String → String → String → ℕ → ClaimRequest
  create_claim_request agent_id operator_id private_key now =
      let p : ClaimPayload = record {
        agent_id = agent_id;
        operator_id = operator_id;
        timestamp = now;
      } in
      record { payload = p; signature = s.sign p private_key }
