-- ===== src/Autonomy/Tests.antt =====
-- Runs of src/autonomy: an agent with 60 credits, a reserve of 20, and one peer that answers.
use agentbnb.Prelude.{
  ◌≡◌, ◌↔◌, refl, false, List, [], ◌∷◌, ◌++◌, none, some, length, map, arith, ℕ, ltb, min, max, ◌*◌,
  ◌-◌, ◌==◌,
}
use agentbnb.Credit.Order.{order_by}
use agentbnb.Credit.Table.{count, select_first, select_all}
use agentbnb.Credit.Db.{Db, open_credit_db}
use agentbnb.Credit.Supply.{HasKeys}
use agentbnb.Credit.Owner.{is_hex16, canonicalize_credit_owner, resolve_canonical_identity}
use agentbnb.Credit.Owner.Canonical.{all-IsCanonical}
use agentbnb.Credit.Budget.{can_spend}
use agentbnb.Autonomy.Tiers.{get_autonomy_tier, default_autonomy_config}
use agentbnb.Autonomy.Pending.{
  PendingRequest, new_request, approved, pending_at, not_found, resolve_pending_request,
}
use agentbnb.Autonomy.Pending.Listed.{shown, shown-resolve}
use agentbnb.Autonomy.World.{World}
use agentbnb.Autonomy.Request.{
  CapabilityNeed, ResolvedTarget, Outside, AutoRequestor, request_resolved, value,
}
use agentbnb.Autonomy.Request.Blocked.{Call, run_requests, asked, run_requests-asked}
use agentbnb.Autonomy.Routing.Logged.{request_with_autonomy_logs}
use agentbnb.Identity.Agents.{
  same_agent_identity, resolve_canonical_identity as resolve_agent, lookup_agent,
  lookup_agent_by_owner,
}
use agentbnb.Autonomy.Scores.{Double, score_peers, build_candidates, affordable_candidates}
use agentbnb.Autonomy.Routing.{
  request_with_autonomy, nobody, Directory, route, find_cards, choose, is_self_target,
}
use agentbnb.Autonomy.Routing.Other.{route_avoids_self}
use agentbnb.Autonomy.Request.Closed.{IsOver, request_resolved_closes}

abbrev outside : Outside
outside = record {
  mint = λ i s. some "token";
  find_peer = λ p. some (record { url = "http://peer"; token = "t" });
  request_capability = λ p c d. value "done";
  request_via_temporary_relay = λ u t p c s d. value "done";
  stringify = λ d. "{}";
  quote = λ s. s;
}

abbrev ann : AutoRequestor
ann = record {
  owner = "ann";
  autonomy_config = record { tier1_max_credits = 10; tier2_max_credits = 30 };
  budget_owner = "ann";
  reserve = 20;
  registry_url = none;
  identity = none;
}

abbrev need : CapabilityNeed
need = record { query = "translate"; max_cost_credits = 40; params = none }

abbrev target : ResolvedTarget
target = record {
  card_id = "card";
  skill_id = some "skill";
  owner = "bob";
  agent_id = none;
  via_relay = false;
  credits_per_call = 12;
}

abbrev rich : Db
rich = record open_credit_db {
  balances = (record { owner = "ann"; balance = 60; updated_at = 1 }) ∷ [];
}

rich-HasKeys : HasKeys rich
unfolding count
rich-HasKeys = record {
  balances = λ o. ground arith;
  escrows = λ id. ground arith;
  vouchers = λ id. ground arith;
}

abbrev start : World
start = record { credit_db = rich; request_log = []; pending_requests = [] }

request_resolved_closes_example :
    IsOver "e" 12 (request_resolved outside ann need target "e" "p" 2 3 start)
unfolding get_autonomy_tier can_spend select_first canonicalize_credit_owner
    resolve_canonical_identity
request_resolved_closes_example =
    request_resolved_closes outside ann need target "e" "p" 2 3 start refl (omega arith)
      (λ h. ground (arith, h)) refl rich-HasKeys (all-IsCanonical "ann") (all-IsCanonical "bob")
      refl refl

abbrev asking : AutoRequestor
asking = record ann { autonomy_config = default_autonomy_config }

abbrev call : Call
call = record {
  need = need;
  target = target;
  escrow_id = "e";
  pending_id = "p";
  now = 2;
  later = 3;
}

run_requests-asked_example :
    ((run_requests outside asking (call ∷ call ∷ []) start).credit_db ≡ rich)
    × ((run_requests outside asking (call ∷ call ∷ []) start).pending_requests
        ≡ [] ++ map (asked outside asking) (call ∷ call ∷ []))
run_requests-asked_example =
    run_requests-asked outside asking (call ∷ call ∷ []) start
      ((omega arith, omega arith), ((omega arith, omega arith), tt))

abbrev waiting : List PendingRequest
waiting =
    new_request
      (record {
        skill_query = "translate";
        max_cost_credits = 40;
        credits = 12;
        selected_peer = some "bob";
        selected_card_id = none;
        selected_skill_id = none;
        params = none;
      })
      "p" 2
    ∷ []

shown-resolve_example :
    (let (result, after) = resolve_pending_request "p" approved 5 waiting in
      (shown "p" after ≡ 0)
      × ((result ≡ not_found) ↔ (count (pending_at "p") waiting ≡ 0))
      × (result ≡ not_found → after ≡ waiting))
shown-resolve_example = shown-resolve "p" "p" approved 5 waiting refl

-- Whole numbers in the place of doubles.
abbrev whole : Double ℕ
whole = record {
  nought = 0;
  half = 0;
  one = 1;
  of_credits = λ n. n;
  less = ltb;
  same = λ a b. a == b;
  smaller = min;
  larger = max;
  minus = λ a b. a - b;
  times = λ a b. a * b;
  over = λ a b. a;
}

abbrev directory : Directory ℕ
directory = record {
  search_cards = λ q. [];
  fetch_remote = λ u q. none;
  resolve = λ q. some target;
}

route_avoids_self_example : same_agent_identity "bob" "ann" [] ≡ false
unfolding route find_cards score_peers build_candidates affordable_candidates choose is_self_target
    resolve_agent lookup_agent lookup_agent_by_owner select_first order_by select_all is_hex16
route_avoids_self_example = route_avoids_self whole directory ann [] need 2 target start refl

-- The registry that `ann` falls back on does not answer.
abbrev remote : AutoRequestor
remote = record ann { registry_url = some "http://registry" }

abbrev nowhere : Directory ℕ
nowhere = record directory { resolve = λ q. none }

request_with_autonomy_logs_example :
    length
      (request_with_autonomy whole nowhere remote [] need 2 outside "e" "p" 3 start).1.request_log
    ≡ 2
unfolding request_with_autonomy route find_cards score_peers build_candidates affordable_candidates
    choose order_by select_all
request_with_autonomy_logs_example =
    request_with_autonomy_logs whole nowhere remote [] need 2 outside "e" "p" 3 start nobody refl
