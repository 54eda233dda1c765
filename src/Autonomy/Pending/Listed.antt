-- ===== src/Autonomy/Pending/Listed.antt =====
-- Which requests the owner sees, from their creation to their resolution
-- (src/autonomy/pending-requests.ts).
use agentbnb.Prelude.{
  ℕ, suc, ◌≡◌, ◌↔◌, sym, ◌∙◌, ap, refl, Bool, false, ◌&&◌, String, List, [], ◌∷◌, some, arith,
  str_eq, ltb, str_eq_iff, if◌then◌else◌,
}
use agentbnb.Credit.Table.{count, select_all, update_where, count-insert, update_where_none}
use agentbnb.Credit.Order.{count-order_by}
use agentbnb.Autonomy.Pending.{
  PendingRequest, PendingStatus, CreatePendingRequestOpts, is_pending, list_pending_requests,
  new_request, pending_at, not_found, create_pending_request, resolve_pending_request,
}

count-select_all :
    (p q : PendingRequest → Bool) (rows : List PendingRequest)
    → count p (select_all q rows) ≡ count (λ r. p r && q r) rows
unfolding count select_all
count-select_all p q [] = refl
count-select_all p q (r ∷ rs) = ground (arith, count-select_all p q rs)

-- How often the owner is shown a request with this id.
unfoldable pub shown : String → List PendingRequest → ℕ
shown id rows = count (pending_at id) (list_pending_requests rows)

shown-count :
    (id : String) (rows : List PendingRequest)
    → shown id rows ≡ count (λ r. pending_at id r && is_pending r.status) rows
unfolding shown list_pending_requests
shown-count id rows = ground (
  arith,
  count-order_by (λ a b. ltb b.created_at a.created_at) (pending_at id)
      (select_all (λ r. is_pending r.status) rows),
  count-select_all (pending_at id) (λ r. is_pending r.status) rows,
)

-- A new request is shown once more than before, and no other is shown more or less often.
pub shown-create :
    (opts : CreatePendingRequestOpts) (id other : String) (now : ℕ) (rows : List PendingRequest)
    → shown other (create_pending_request opts id now rows)
      ≡ (if str_eq id other then suc (shown other rows) else shown other rows)
unfolding create_pending_request
shown-create opts id other now rows = ground (
  arith,
  shown-count other (create_pending_request opts id now rows),
  shown-count other rows,
  count-insert (λ r. pending_at other r && is_pending r.status) (new_request opts id now) rows,
)

abbrev resolve_with : PendingStatus → ℕ → PendingRequest → PendingRequest
resolve_with resolution now r = record r { status = resolution; resolved_at = some now }

count-resolved :
    (id other : String) (resolution : PendingStatus) (now : ℕ) (rows : List PendingRequest)
    → is_pending resolution ≡ false
    → count
        (λ r. pending_at other r && is_pending r.status)
        (update_where (pending_at id) (resolve_with resolution now) rows)
      ≡ (if str_eq id other then 0 else count (λ r. pending_at other r && is_pending r.status) rows)
unfolding count update_where
count-resolved id other resolution now [] h = ground arith
count-resolved id other resolution now (r ∷ rs) h = ground (
  arith,
  count-resolved id other resolution now rs h,
  str_eq_iff r.id id,
  str_eq_iff r.id other,
  str_eq_iff id other,
)

found-count :
    (id : String) (resolution : PendingStatus) (now : ℕ) (rows : List PendingRequest)
    → (let (result, after) = resolve_pending_request id resolution now rows in
        ((result ≡ not_found) ↔ (count (pending_at id) rows ≡ 0))
        × (result ≡ not_found → after ≡ rows))
unfolding resolve_pending_request
found-count id resolution now rows =
    ground (arith, update_where_none (pending_at id) (resolve_with resolution now) rows)

-- Once it is approved or rejected, a request is not shown, and the others are shown as before; the
-- resolution fails exactly when no request has the id, and then changes nothing.
pub shown-resolve :
    (id other : String) (resolution : PendingStatus) (now : ℕ) (rows : List PendingRequest)
    → is_pending resolution ≡ false
    → (let (result, after) = resolve_pending_request id resolution now rows in
        (shown other after ≡ (if str_eq id other then 0 else shown other rows))
        × ((result ≡ not_found) ↔ (count (pending_at id) rows ≡ 0))
        × (result ≡ not_found → after ≡ rows))
unfolding resolve_pending_request
shown-resolve id other resolution now rows h = (
  shown-count other _
      ∙ count-resolved id other resolution now rows h
      ∙ ap (λ n. if str_eq id other then 0 else n) (sym (shown-count other rows)),
  (found-count id resolution now rows).0,
  (found-count id resolution now rows).1,
)
