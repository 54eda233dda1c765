-- ===== src/Autonomy/Pending.antt =====
-- src/autonomy/pending-requests.ts: requests that wait for the owner. The parameters are the text of
-- their JSON. Rows of equal times are listed in the order of insertion.
pub mod Listed
use agentbnb.Prelude.{
  ℕ, zero, suc, Bool, true, false, ltb, String, List, [], ◌∷◌, Option, none, some, str_eq,
  if◌then◌else◌,
}
use agentbnb.Credit.Table.{count, select_all, update_where, insert}
use agentbnb.Credit.Order.{order_by}

pub data PendingStatus : Type 0 where
  pending approved rejected : PendingStatus

pub record PendingRequest : Type 0 where
  pub id : String
  pub skill_query : String
  pub max_cost_credits : ℕ
  pub selected_peer : Option String
  pub selected_card_id : Option String
  pub selected_skill_id : Option String
  pub credits : ℕ
  pub status : PendingStatus
  pub params : Option String
  pub created_at : ℕ
  pub resolved_at : Option ℕ

pub record CreatePendingRequestOpts : Type 0 where
  pub skill_query : String
  pub max_cost_credits : ℕ
  pub credits : ℕ
  pub selected_peer : Option String
  pub selected_card_id : Option String
  pub selected_skill_id : Option String
  pub params : Option String

abbrev pub new_request : CreatePendingRequestOpts → String → ℕ → PendingRequest
new_request opts id now = record {
  id = id;
  skill_query = opts.skill_query;
  max_cost_credits = opts.max_cost_credits;
  selected_peer = opts.selected_peer;
  selected_card_id = opts.selected_card_id;
  selected_skill_id = opts.selected_skill_id;
  credits = opts.credits;
  status = pending;
  params = opts.params;
  created_at = now;
  resolved_at = none;
}

unfoldable pub create_pending_request :
    CreatePendingRequestOpts → String → ℕ → List PendingRequest → List PendingRequest
create_pending_request opts id now rows = insert (new_request opts id now) rows

abbrev pub is_pending : PendingStatus → Bool
is_pending pending = true
is_pending approved = false
is_pending rejected = false

unfoldable pub list_pending_requests : List PendingRequest → List PendingRequest
list_pending_requests rows =
    order_by (λ a b. ltb b.created_at a.created_at) (select_all (λ r. is_pending r.status) rows)

abbrev pub pending_at : String → PendingRequest → Bool
pending_at id r = str_eq r.id id

-- The error 'NOT_FOUND', or nothing, with the table afterwards.
pub data Resolution : Type 0 where
  resolved not_found : Resolution

unfoldable pub resolve_pending_request :
    String → PendingStatus → ℕ → List PendingRequest → Resolution × List PendingRequest
resolve_pending_request id resolution now rows = (
  elim (count (pending_at id) rows) [ zero ↦ not_found | suc n ↦ resolved ],
  update_where (pending_at id) (λ r. record r { status = resolution; resolved_at = some now }) rows,
)
