-- ===== src/Conductor/Orchestrator/Settled.antt =====
-- Executing the tasks of a round settles each of them, however they are grouped.
use agentbnb.Prelude.{
  ◌+◌, ◌≡◌, refl, ap, ◌∙◌, Bool-cases, Option-cases, inl, inr, String, Option, none, some, List, [],
  ◌∷◌, ◌++◌, map, Dict, get, put, occurrences, occurrences-append, arith,
}
use agentbnb.Conductor.Orchestrator.{
  Network, Settlement, fulfilled, rejected, PreparedTask, Alternative, try_alternative,
  execute_single_task, batch_reply, settle_reply, execute_group, or_no_tasks, group_tasks,
  execute_groups, execute_all,
}

abbrev pub settled_id : {R : Type 0} → Settlement R → String
settled_id (fulfilled id r c) = id
settled_id (rejected id) = id

abbrev pub settled_ids : {R : Type 0} → List (Settlement R) → List String
settled_ids ss = map settled_id ss

abbrev pub task_ids : List PreparedTask → List String
task_ids pts = map (λ pt. pt.task_id) pts

abbrev grouped_ids : Dict (List PreparedTask) → List String
grouped_ids [] = []
grouped_ids ((url, group) ∷ groups) = task_ids group ++ grouped_ids groups

settled_ids-append :
    {R : Type 0} (w : String) (xs ys : List (Settlement R))
    → occurrences w (settled_ids (xs ++ ys))
      ≡ occurrences w (settled_ids xs) + occurrences w (settled_ids ys)
unfolding occurrences
settled_ids-append w [] ys = omega arith
settled_ids-append w (x ∷ xs) ys = ground (arith, settled_ids-append w xs ys)

task_ids-append :
    (w : String) (xs ys : List PreparedTask)
    → occurrences w (task_ids (xs ++ ys))
      ≡ occurrences w (task_ids xs) + occurrences w (task_ids ys)
unfolding occurrences
task_ids-append w [] ys = omega arith
task_ids-append w (x ∷ xs) ys = ground (arith, task_ids-append w xs ys)

settled_ids-map :
    {R : Type 0} (f : PreparedTask → Settlement R)
    → ((pt : PreparedTask) → settled_id (f pt) ≡ pt.task_id)
    → (pts : List PreparedTask) → settled_ids (map f pts) ≡ task_ids pts
settled_ids-map f h [] = refl
settled_ids-map f h (pt ∷ pts) =
    ap (λ id. id ∷ settled_ids (map f pts)) (h pt)
    ∙ ap (λ ids. pt.task_id ∷ ids) (settled_ids-map f h pts)

-- Putting a group in the place of the one that was there.
grouped_ids-put :
    (w k : String) (g : List PreparedTask) (m : Dict (List PreparedTask))
    → occurrences w (grouped_ids (put k g m)) + occurrences w (task_ids (or_no_tasks (get k m)))
      ≡ occurrences w (grouped_ids m) + occurrences w (task_ids g)
unfolding put get occurrences
grouped_ids-put w k g [] = omega (arith, occurrences-append w (task_ids g) [])
grouped_ids-put w k g ((j, v) ∷ m) = ground (
  arith,
  grouped_ids-put w k g m,
  occurrences-append w (task_ids v) (grouped_ids m),
  occurrences-append w (task_ids g) (grouped_ids m),
  occurrences-append w (task_ids v) (grouped_ids (put k g m)),
)

module _ {R : Type 0} (net : Network R) where
  alternative-id :
      (pt : PreparedTask) (results : Dict R) (alts : List Alternative)
      → settled_id (try_alternative net pt results alts) ≡ pt.task_id
  unfolding try_alternative
  alternative-id pt results [] = refl
  alternative-id pt results (alt ∷ alts) =
      elim (Option-cases (net.request (net.resolve_agent_url alt.agent) pt results)) [
        | inl e ↦ ground (arith, e)
        | inr (r, e) ↦ ground (arith, e)
      ]

  single-id :
      (results : Dict R) (pt : PreparedTask)
      → settled_id (execute_single_task net results pt) ≡ pt.task_id
  unfolding execute_single_task
  single-id results pt = elim (Option-cases (net.request pt.primary pt results)) [
    | inl e ↦ ground (arith, e, alternative-id pt results pt.agent_match.alternatives)
    | inr (r, e) ↦ ground (arith, e)
  ]

  settle_reply-id :
      (pt : PreparedTask) (reply : Option (Option R))
      → settled_id (settle_reply net pt reply) ≡ pt.task_id
  unfolding settle_reply
  settle_reply-id pt none = refl
  settle_reply-id pt (some none) = refl
  settle_reply-id pt (some (some r)) = refl

  reply-id :
      (replies : Dict (Option R)) (pt : PreparedTask)
      → settled_id (batch_reply net replies pt) ≡ pt.task_id
  unfolding batch_reply
  reply-id replies pt = settle_reply-id pt (get pt.task_id replies)

  group-ids :
      (results : Dict R) (url : String) (group : List PreparedTask)
      → settled_ids (execute_group net results url group) ≡ task_ids group
  unfolding execute_group
  group-ids results url [] = refl
  group-ids results url (pt ∷ []) = ap (λ id. id ∷ []) (single-id results pt)
  group-ids results url (pt ∷ qt ∷ pts) =
      let group = pt ∷ qt ∷ pts in
      elim (Option-cases (net.request_batch url group results)) [
        | inl e ↦
            rw (e, execute_group)
              (settled_ids-map (execute_single_task net results) (single-id results) group)
        | inr (replies, e) ↦
            rw (e, execute_group)
              (settled_ids-map (batch_reply net replies) (reply-id replies) group)
      ]

  groups-ids :
      (w : String) (results : Dict R) (groups : Dict (List PreparedTask))
      → occurrences w (settled_ids (execute_groups net results groups))
        ≡ occurrences w (grouped_ids groups)
  unfolding execute_groups
  groups-ids w results [] = refl
  groups-ids w results ((url, group) ∷ groups) = omega (
    arith,
    settled_ids-append w (execute_group net results url group) (execute_groups net results groups),
    occurrences-append w (task_ids group) (grouped_ids groups),
    ap (occurrences w) (group-ids results url group),
    groups-ids w results groups,
  )

  group_tasks-ids :
      (w : String) (pts : List PreparedTask) (groups : Dict (List PreparedTask))
      (relay : List PreparedTask)
      → occurrences w (grouped_ids (group_tasks net pts groups relay).0)
          + occurrences w (task_ids (group_tasks net pts groups relay).1)
        ≡ occurrences w (grouped_ids groups)
          + occurrences w (task_ids relay)
          + occurrences w (task_ids pts)
  unfolding group_tasks occurrences
  group_tasks-ids w [] groups relay = omega arith
  group_tasks-ids w (pt ∷ pts) groups relay =
      let url = pt.primary.url in
      let group = or_no_tasks (get url groups) ++ pt ∷ [] in
      elim (Bool-cases (net.through_relay pt.primary)) [
        | inl e ↦ ground (
          arith,
          e,
          group_tasks-ids w pts groups (relay ++ pt ∷ []),
          task_ids-append w relay (pt ∷ []),
        )
        | inr e ↦ ground (
          arith,
          e,
          group_tasks-ids w pts (put url group groups) relay,
          grouped_ids-put w url group groups,
          task_ids-append w (or_no_tasks (get url groups)) (pt ∷ []),
        )
      ]

  pub execute_all-ids :
      (w : String) (results : Dict R) (pts : List PreparedTask)
      → occurrences w (settled_ids (execute_all net results pts)) ≡ occurrences w (task_ids pts)
  unfolding execute_all occurrences
  execute_all-ids w results pts =
      let relay = (group_tasks net pts [] []).1 in
      let groups = (group_tasks net pts [] []).0 in
      omega (
        arith,
        settled_ids-append w (execute_groups net results groups)
            (map (execute_single_task net results) relay),
        groups-ids w results groups,
        ap (occurrences w)
            (settled_ids-map (execute_single_task net results) (single-id results) relay),
        group_tasks-ids w pts [] [],
      )
