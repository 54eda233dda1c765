-- ===== src/Autonomy/Request.antt =====
-- `AutoRequestor.requestWithAutonomy` (src/autonomy/auto-request.ts) from the target that the routing has
-- resolved: the tier, the reserve, and the call between the hold of the escrow and its end. The
-- other agents, the peers' file and the minting of tokens are the record `Outside`; values and
-- parameters are the texts of their JSON. `now` is the time up to the call, `later` the time after.
pub mod Blocked
pub mod Logged
pub mod Closed
use agentbnb.Prelude.{
  ℕ, Bool, true, false, String, List, [], ◌∷◌, Option, none, some, ltb, str_eq, Dict, put, ◌&&◌,
  if◌then◌else◌,
}
use agentbnb.Credit.Escrow.{hold_escrow, settle_escrow, release_escrow}
use agentbnb.Credit.Budget.{can_spend}
use agentbnb.Autonomy.Tiers.{
  AutonomyEvent, AutonomyTier, tier1, tier2, tier3, AutonomyConfig, get_autonomy_tier,
  request_event, auto_request, auto_request_notify, auto_request_pending, auto_request_failed,
}
use agentbnb.Autonomy.Pending.{CreatePendingRequestOpts}
use agentbnb.Autonomy.World.{
  Fault, call_fault, Outcome, returned, raised, World, Flow, pure, ◌>>=◌, ◌>>◌, attempt, on_credit,
  audit, queue,
}

pub record CapabilityNeed : Type 0 where
  pub query : String
  pub max_cost_credits : ℕ
  pub params : Option (Dict String)

pub record ResolvedTarget : Type 0 where
  pub card_id : String
  pub skill_id : Option String
  pub owner : String
  pub agent_id : Option String
  pub via_relay : Bool
  pub credits_per_call : ℕ

pub data RequestStatus : Type 0 where
  success budget_blocked tier_blocked no_peer failed : RequestStatus

pub data Reason : Type 0 where
  no_eligible_peer owner_approval_required reserve_breached no_registry_url : Reason
  no_signing_identity no_gateway_config : Reason
  execution_failed : Fault → Reason

pub record AutoRequestResult : Type 0 where
  pub status : RequestStatus
  pub result : Option String
  pub escrow_id : Option String
  pub peer : Option String
  pub credits_spent : Option ℕ
  pub reason : Option Reason

pub record PeerConfig : Type 0 where
  pub url : String
  pub token : String

-- What an awaited call comes to: a value, or an exception with its message.
pub data Reply : Type 0 where
  value : String → Reply
  failure : String → Reply

pub record Identity : Type 0 where
  pub did : String
  pub private_key : String

-- `mint` is `mintSelfDelegatedSkillToken`, with `none` for an exception. `stringify` is `JSON.stringify`,
-- of an object and of a text.
pub record Outside : Type 0 where
  pub mint : Identity → Option String → Option String
  pub find_peer : String → Option PeerConfig
  pub request_capability : PeerConfig → String → Dict String → Reply
  pub request_via_temporary_relay :
      String → String → String → String → Option String → Dict String → Reply
  pub stringify : Dict String → String
  pub quote : String → String

-- The fields of an `AutoRequestor`; the budget manager is its owner and its reserve.
pub record AutoRequestor : Type 0 where
  pub owner : String
  pub autonomy_config : AutonomyConfig
  pub budget_owner : String
  pub reserve : ℕ
  pub registry_url : Option String
  pub identity : Option Identity

-- A text that counts as true: one that is there and not empty.
abbrev pub present : Option String → Option String
present none = none
present (some s) = if str_eq s "" then none else some s

abbrev pub or_default : Option String → String → String
or_default none d = d
or_default (some s) d = s

-- `{ ...a, ...b }`.
abbrev pub spread : Dict String → Dict String → Dict String
spread a [] = a
spread a ((k, v) ∷ b) = spread (put k v a) b

abbrev spread_option : Dict String → Option (Dict String) → Dict String
spread_option a none = a
spread_option a (some b) = spread a b

abbrev map_option : (Dict String → String) → Option (Dict String) → Option String
map_option f none = none
map_option f (some d) = some (f d)

abbrev pub await : Reply → Flow World String
await (value v) = pure v
await (failure m) = λ w. (raised (call_fault m), w)

module _ (o : Outside) (self : AutoRequestor) (need : CapabilityNeed) (t : ResolvedTarget) where
  abbrev pub tier : AutonomyTier
  tier = get_autonomy_tier t.credits_per_call self.autonomy_config

  abbrev pub mint_relay_token : Option String
  mint_relay_token = elim self.identity [ none ↦ none | some i ↦ o.mint i t.skill_id ]

  -- An empty skill id is not passed on.
  abbrev pub request_params : Dict String
  request_params = put "requester" (o.quote self.owner) (
      spread_option
        (elim (present t.skill_id) [ none ↦ [] | some s ↦ ("skill_id", o.quote s) ∷ [] ])
        need.params)

  abbrev pub log_failure : ℕ → Flow World (Unit {0})
  log_failure now =
      audit
        (request_event auto_request_failed t.card_id (or_default t.skill_id "none") tier
          t.credits_per_call)
        now

  -- The event of a request that was carried out.
  abbrev pub success_event : AutonomyEvent
  success_event = elim tier [
    | tier2 ↦
        request_event auto_request_notify t.card_id (or_default t.skill_id t.card_id) tier2
          t.credits_per_call
    | _ ↦
        request_event auto_request t.card_id (or_default t.skill_id t.card_id) tier1
          t.credits_per_call
  ]

  abbrev pub log_success : ℕ → Flow World (Unit {0})
  log_success now = audit success_event now

  abbrev pub refusal : RequestStatus → Reason → Option String → AutoRequestResult
  refusal status reason peer = record {
    status = status;
    result = none;
    escrow_id = none;
    peer = peer;
    credits_spent = none;
    reason = some reason;
  }

  abbrev pub succeeded : String → Option String → AutoRequestResult
  succeeded v escrow_id = record {
    status = success;
    result = some v;
    escrow_id = escrow_id;
    peer = some t.owner;
    credits_spent = some t.credits_per_call;
    reason = none;
  }

  abbrev pub execution_failure : Fault → AutoRequestResult
  execution_failure e = refusal failed (execution_failed e) (some t.owner)

  abbrev refuse : Reason → Option String → ℕ → Flow World AutoRequestResult
  refuse reason peer now = do log_failure now; pure (refusal no_peer reason peer)

  abbrev pub call_relay : String → String → Flow World String
  call_relay url token =
      await (o.request_via_temporary_relay url token t.owner t.card_id t.skill_id request_params)

  -- The relay holds the escrow of a paid call.
  unfoldable pub paid_relay : ℕ → ℕ → Flow World AutoRequestResult
  paid_relay now later = elim (present self.registry_url) [
    | none ↦ refuse no_registry_url none now
    | some url ↦ elim (present mint_relay_token) [
      | none ↦ refuse no_signing_identity (some t.owner) now
      | some token ↦
          attempt (do v ← call_relay url token; log_success later; pure (succeeded v none))
            (λ e. do log_failure later; pure (execution_failure e))
    ]
  ]

  abbrev pub give_up : String → Reason → Option String → ℕ → Flow World AutoRequestResult
  give_up escrow_id reason peer later = do
    log_failure later
    on_credit (release_escrow escrow_id later)
    pure (refusal no_peer reason peer)

  abbrev pub finish : String → ℕ → String → Flow World AutoRequestResult
  finish escrow_id later v = do
    on_credit (settle_escrow escrow_id t.owner later)
    log_success later
    pure (succeeded v (some escrow_id))

  -- The body of the `try` after the hold.
  unfoldable pub execute_held : String → ℕ → Flow World AutoRequestResult
  execute_held escrow_id later =
      if t.via_relay
      then elim (present self.registry_url) [
        | none ↦ give_up escrow_id no_registry_url none later
        | some url ↦ elim (present mint_relay_token) [
          | none ↦ give_up escrow_id no_signing_identity (some t.owner) later
          | some token ↦ (do v ← call_relay url token; finish escrow_id later v)
        ]
      ]
      else elim (o.find_peer t.owner) [
        | none ↦ give_up escrow_id no_gateway_config none later
        | some p ↦ (do
          v ← await (o.request_capability p t.card_id request_params)
          finish escrow_id later v)
      ]

  abbrev pub recover : String → ℕ → Fault → Flow World AutoRequestResult
  recover escrow_id later e = do
    on_credit (release_escrow escrow_id later)
    log_failure later
    pure (execution_failure e)

  unfoldable pub local_path : String → ℕ → ℕ → Flow World AutoRequestResult
  unfolding execute_held
  local_path escrow_id now later = do
    id ← on_credit (hold_escrow self.owner t.credits_per_call t.card_id escrow_id now)
    attempt (execute_held id later) (recover id later)

  unfoldable pub within_budget : String → ℕ → ℕ → Bool → Flow World AutoRequestResult
  unfolding paid_relay local_path
  within_budget escrow_id now later false = do
    log_failure now
    pure (refusal budget_blocked reserve_breached none)
  within_budget escrow_id now later true =
      if t.via_relay && ltb 0 t.credits_per_call
      then paid_relay now later
      else local_path escrow_id now later

  unfoldable pub ask_owner : String → ℕ → Flow World AutoRequestResult
  ask_owner pending_id now = do
    queue
        (record {
          skill_query = need.query;
          max_cost_credits = need.max_cost_credits;
          credits = t.credits_per_call;
          selected_peer = some t.owner;
          selected_card_id = some t.card_id;
          selected_skill_id = t.skill_id;
          params = map_option o.stringify need.params;
        })
        pending_id now
    audit
        (request_event auto_request_pending t.card_id (or_default t.skill_id t.card_id) tier3
          t.credits_per_call)
        now
    pure (refusal tier_blocked owner_approval_required (some t.owner))

  -- The id of the escrow and that of the pending request are drawn when they are needed.
  unfoldable pub request_resolved : String → String → ℕ → ℕ → Flow World AutoRequestResult
  unfolding within_budget ask_owner
  request_resolved escrow_id pending_id now later = elim tier [
    | tier3 ↦ ask_owner pending_id now
    | _ ↦ (do
      can ← on_credit (can_spend self.budget_owner self.reserve t.credits_per_call now)
      within_budget escrow_id now later can)
  ]
