-- ===== src/Hub/Executor.antt =====
-- src/hub-agent/executor.ts: a skill of a Hub agent is called over HTTP or queued as a job. An agent is
-- read with its secrets decrypted already; the call of the API of a skill of an agent, with the
-- configuration and the secrets left to it, is the argument `execute_api`. Latencies are left out.
pub mod Closed
use agentbnb.Prelude.{
  ℕ, zero, suc, Bool, true, false, ◌&&◌, String, str_append, List, [], ◌∷◌, Option, none, some,
  str_eq, ltb, any, ℤ, pos, negsuc, is_positive, if◌then◌else◌,
}
use agentbnb.Credit.Table.{select_first, select_all}
use agentbnb.Credit.Escrow.{hold_escrow, settle_escrow, release_escrow}
use agentbnb.Conductor.Json.{Json, boolean, Fields, field}
use agentbnb.Relay.Price.{CardRow, member_of, lookup_card_price}
use agentbnb.Hub.Jobs.{insert_job, InsertJobInput}
use agentbnb.Hub.World.{
  World, HubAgent, SkillRoute, direct_api, relay_route, queue_route, Flow, Outcome, returned,
  raised, Fault, call_fault, pure, attempt, on_credit, ◌>>=◌, ◌>>◌,
}

-- `getHubAgent`.
unfoldable pub get_hub_agent : String → List HubAgent → Option HubAgent
get_hub_agent agent_id agents = select_first (λ a. str_eq a.agent_id agent_id) agents

-- `padEnd(n, '0')`.
unfoldable pub pad_end : ℕ → String → String
pad_end zero s = s
pad_end (suc n) String.[] = str_append "0" (pad_end n String.[])
pad_end (suc n) (String.◌∷◌ c s) = String.◌∷◌ c (pad_end n s)

-- The next part of so many characters, then the rest.
unfoldable pub split_text : ℕ → String → String × String
split_text zero s = (String.[], s)
split_text (suc n) String.[] = (String.[], String.[])
split_text (suc n) (String.◌∷◌ c s) = let (a, b) = split_text n s in (String.◌∷◌ c a, b)

-- The first 32 characters in groups of 8, 4, 4, 4 and 12.
unfoldable pub card_id_of : String → String
unfolding pad_end split_text
card_id_of agent_id =
    let (a, r) = split_text 8 (pad_end 32 agent_id) in
    let (b, r') = split_text 4 r in
    let (c, r'') = split_text 4 r' in
    let (d, r''') = split_text 4 r'' in
    let (e, rest) = split_text 12 r''' in
    str_append a (
      str_append "-" (
        str_append b
          (str_append "-" (str_append c (str_append "-" (str_append d (str_append "-" e)))))))

pub data HubError : Type 0 where
  agent_not_found agent_paused skill_not_found not_connected : HubError
  api_failed : String → HubError
  threw : Fault → HubError

-- What comes of the call of an API: a result, an error, or an exception.
pub data ApiReply : Type 0 where
  api_success api_failure api_exception : String → ApiReply

-- `ExecutionResult`: what an API returned, the id of a queued job, or an error.
pub data ExecutionResult : Type 0 where
  api_result : String → ExecutionResult
  queued_job : String → ExecutionResult
  failure : HubError → ExecutionResult

abbrev pub skill_of : SkillRoute → String
skill_of (direct_api s price) = s
skill_of (relay_route s owner) = s
skill_of (queue_route s owner) = s

abbrev says_online : Option Json → Bool
says_online (some (boolean b)) = b
says_online _ = false

abbrev is_online_card : CardRow → Bool
is_online_card row = elim row.content [
  | none ↦ false
  | some card ↦ elim (field "availability" card) [
    | none ↦ false
    | some availability ↦ says_online (member_of "online" availability)
  ]
]

unfoldable pub is_relay_owner_online : String → List CardRow → Bool
is_relay_owner_online owner cards =
    any is_online_card (select_all (λ r. str_eq r.owner owner) cards)

-- A text that counts as true.
abbrev pub present : Option String → Option String
present none = none
present (some s) = if str_eq s "" then none else some s

abbrev pub price_due : Option ℤ → ℕ
price_due (some (pos n)) = n
price_due _ = 0

abbrev pub or_anonymous : Option String → String
or_anonymous none = "anonymous"
or_anonymous (some o) = o

module _ (execute_api : String → String → ApiReply) (escrow_id job_id : String)
    (now later : ℕ) where
  -- An escrow for a call that has a requester and a price.
  unfoldable pub hold_price : Option String → ℕ → String → Flow World (Option String)
  hold_price requester price card_id = elim (present requester) [
    | none ↦ pure none
    | some o ↦
        if ltb 0 price
        then (do id ← on_credit (hold_escrow o price card_id escrow_id now); pure (some id))
        else pure none
  ]

  abbrev add_job : InsertJobInput → Flow World ExecutionResult
  add_job input w =
      (returned (queued_job job_id), record w { jobs = (insert_job input job_id now w.jobs).1 })

  unfoldable pub queue_job :
      HubAgent → String → String → Option String → String → Flow World ExecutionResult
  unfolding hold_price
  queue_job agent skill_id params requester relay_owner w =
      (do
        held ←
            hold_price requester
              (price_due (lookup_card_price (card_id_of agent.agent_id) (some skill_id) w.cards))
              (card_id_of agent.agent_id)
        add_job (record {
          hub_agent_id = agent.agent_id;
          skill_id = skill_id;
          requester_owner = or_anonymous requester;
          params = params;
          escrow_id = held;
          relay_owner = some relay_owner;
        }))
        w

  unfoldable pub execute_relay :
      HubAgent → String → String → Option String → String → Flow World ExecutionResult
  unfolding queue_job
  execute_relay agent skill_id params requester relay_owner w =
      if is_relay_owner_online relay_owner w.cards
      then (returned (failure not_connected), w)
      else queue_job agent skill_id params requester relay_owner w

  -- The end of the escrow after an answer.
  abbrev close_with : Bool → HubAgent → Option String → Flow World (Unit {0})
  close_with success agent none = pure tt
  close_with true agent (some id) = on_credit (settle_escrow id agent.agent_id later)
  close_with false agent (some id) = on_credit (release_escrow id later)

  abbrev pub answered : ApiReply → HubAgent → Option String → Flow World ExecutionResult
  answered (api_success v) agent held = do close_with true agent held; pure (api_result v)
  answered (api_failure m) agent held = do
    close_with false agent held
    pure (failure (api_failed m))
  answered (api_exception m) agent held = λ w. (raised (call_fault m), w)

  abbrev pub give_back : HubAgent → Option String → Fault → Flow World ExecutionResult
  give_back agent held e = do close_with false agent held; pure (failure (threw e))

  unfoldable pub execute_direct_api :
      String → HubAgent → Option String → ℕ → Flow World ExecutionResult
  unfolding hold_price
  execute_direct_api skill_id agent requester credits_per_call = do
    held ← hold_price requester credits_per_call (card_id_of agent.agent_id)
    attempt (answered (execute_api agent.agent_id skill_id) agent held) (give_back agent held)

  abbrev run_route : SkillRoute → HubAgent → String → Option String → Flow World ExecutionResult
  run_route (relay_route s owner) agent params requester =
      execute_relay agent s params requester owner
  run_route (queue_route s owner) agent params requester = queue_job agent s params requester owner
  run_route (direct_api s price) agent params requester = execute_direct_api s agent requester price

  abbrev find_route : String → HubAgent → Option SkillRoute
  find_route skill_id agent = select_first (λ r. str_eq (skill_of r) skill_id) agent.skill_routes

  abbrev execute_on : HubAgent → String → String → Option String → Flow World ExecutionResult
  execute_on agent skill_id params requester =
      if agent.is_paused then pure (failure agent_paused) else elim (find_route skill_id agent) [
        | none ↦ pure (failure skill_not_found)
        | some route ↦ run_route route agent params requester
      ]

  unfoldable pub execute : String → String → String → Option String → Flow World ExecutionResult
  unfolding execute_relay execute_direct_api
  execute agent_id skill_id params requester w = elim (get_hub_agent agent_id w.agents) [
    | none ↦ (returned (failure agent_not_found), w)
    | some agent ↦ execute_on agent skill_id params requester w
  ]
