-- ===== src/Conductor/Orchestrator/Costs.antt =====
-- What the settlements of a round cost, when no agent that is asked costs more than a given price.
use agentbnb.Prelude.{
  All-append, ℕ, ◌+◌, ◌*◌, ◌≤◌, Bool-cases, Option-cases, inl, inr, String, Option, none, some,
  List, [], ◌∷◌, ◌++◌, map, Dict, get, put, All, All-put, All-get, length, length-Within, arith,
}
use agentbnb.Conductor.Orchestrator.{
  Network, Settlement, fulfilled, rejected, failed, Run, AgentMatch, Alternative, PreparedTask,
  try_alternative, execute_single_task, settle_reply, batch_reply, execute_group, or_no_tasks,
  group_tasks, execute_groups, execute_all, collect,
}
use agentbnb.Conductor.Orchestrator.Settled.{settled_ids, task_ids, execute_all-ids}

-- What is paid for a settlement.
abbrev pub cost : {R : Type 0} → Settlement R → ℕ
cost (fulfilled id r c) = c
cost (rejected id) = 0

-- Neither the match nor an alternative costs more than this.
abbrev pub CostsAtMost : ℕ → AgentMatch → Type 0
CostsAtMost most m = (m.credits ≤ most) × All (λ a. a.credits ≤ most) m.alternatives

module _ {R : Type 0} (net : Network R) (most : ℕ) where
  abbrev pub Cheap : PreparedTask → Type 0
  Cheap pt = CostsAtMost most pt.agent_match

  abbrev pub CheapResult : Settlement R → Type 0
  CheapResult s = cost s ≤ most

  alternative-cost :
      (pt : PreparedTask) (results : Dict R) (alts : List Alternative)
      → All (λ a. a.credits ≤ most) alts
      → CheapResult (try_alternative net pt results alts)
  unfolding try_alternative
  alternative-cost pt results [] h = omega arith
  alternative-cost pt results (alt ∷ alts) h =
      elim (Option-cases (net.request (net.resolve_agent_url alt.agent) pt results)) [
        | inl e ↦ ground (arith, e)
        | inr (r, e) ↦ ground (arith, e, h.0)
      ]

  single-cost :
      (results : Dict R) (pt : PreparedTask)
      → Cheap pt
      → CheapResult (execute_single_task net results pt)
  unfolding execute_single_task
  single-cost results pt h = elim (Option-cases (net.request pt.primary pt results)) [
    | inl e ↦ ground (arith, e, alternative-cost pt results pt.agent_match.alternatives h.1)
    | inr (r, e) ↦ ground (arith, e, h.0)
  ]

  reply-cost :
      (pt : PreparedTask) (reply : Option (Option R))
      → Cheap pt
      → CheapResult (settle_reply net pt reply)
  unfolding settle_reply
  reply-cost pt none h = h.0
  reply-cost pt (some none) h = omega arith
  reply-cost pt (some (some r)) h = h.0

  map-cost :
      (f : PreparedTask → Settlement R)
      → ((pt : PreparedTask) → Cheap pt → CheapResult (f pt))
      → (pts : List PreparedTask) → All Cheap pts
      → All CheapResult (map f pts)
  map-cost f p [] h = tt
  map-cost f p (pt ∷ pts) h = (p pt h.0, map-cost f p pts h.1)

  group-cost :
      (results : Dict R) (url : String) (group : List PreparedTask)
      → All Cheap group
      → All CheapResult (execute_group net results url group)
  unfolding execute_group batch_reply
  group-cost results url [] h = tt
  group-cost results url (pt ∷ []) h = (single-cost results pt h.0, tt)
  group-cost results url (pt ∷ qt ∷ pts) h =
      let group = pt ∷ qt ∷ pts in
      elim (Option-cases (net.request_batch url group results)) [
        | inl e ↦
            rw (e, execute_group)
              (map-cost (execute_single_task net results) (single-cost results) group h)
        | inr (replies, e) ↦
            rw (e, execute_group)
              (map-cost (batch_reply net replies) (λ pt c. reply-cost pt (get pt.task_id replies) c)
                group h)
      ]

  groups-cost :
      (results : Dict R) (groups : Dict (List PreparedTask))
      → All (λ g. All Cheap g.1) groups
      → All CheapResult (execute_groups net results groups)
  unfolding execute_groups
  groups-cost results [] h = tt
  groups-cost results ((url, group) ∷ groups) h =
      All-append CheapResult (execute_group net results url group)
        (execute_groups net results groups) (group-cost results url group h.0)
        (groups-cost results groups h.1)

  old_group :
      (url : String) (groups : Dict (List PreparedTask))
      → All (λ g. All Cheap g.1) groups
      → All Cheap (or_no_tasks (get url groups))
  old_group url groups h = elim (Option-cases (get url groups)) [
    | inl e ↦ rw e tt
    | inr (g, e) ↦ rw e (All-get (All Cheap) url groups g h e)
  ]

  group_tasks-cost :
      (pts : List PreparedTask) (groups : Dict (List PreparedTask)) (relay : List PreparedTask)
      → All Cheap pts
      → All (λ g. All Cheap g.1) groups
      → All Cheap relay
      → All (λ g. All Cheap g.1) (group_tasks net pts groups relay).0
        × All Cheap (group_tasks net pts groups relay).1
  unfolding group_tasks
  group_tasks-cost [] groups relay h g r = (g, r)
  group_tasks-cost (pt ∷ pts) groups relay h g r =
      elim (Bool-cases (net.through_relay pt.primary)) [
        | inl e ↦ rw e (
            group_tasks-cost pts groups (relay ++ pt ∷ []) h.1 g
              (All-append Cheap relay (pt ∷ []) r (h.0, tt)))
        | inr e ↦
            let old = or_no_tasks (get pt.primary.url groups) in
            rw e (
              group_tasks-cost pts (put pt.primary.url (old ++ pt ∷ []) groups) relay h.1
                (All-put (λ g. All Cheap g.1) pt.primary.url (old ++ pt ∷ []) groups
                  (All-append Cheap old (pt ∷ []) (old_group pt.primary.url groups g) (h.0, tt)) g)
                r)
      ]

  pub execute_all-cost :
      (results : Dict R) (pts : List PreparedTask)
      → All Cheap pts
      → All CheapResult (execute_all net results pts)
  unfolding execute_all
  execute_all-cost results pts h =
      let both = group_tasks-cost pts [] [] h tt tt in
      All-append CheapResult (execute_groups net results (group_tasks net pts [] []).0)
        (map (execute_single_task net results) (group_tasks net pts [] []).1)
        (groups-cost results (group_tasks net pts [] []).0 both.0)
        (map-cost (execute_single_task net results) (single-cost results)
          (group_tasks net pts [] []).1 both.1)

  pub collect-total :
      (ss : List (Settlement R)) (s : Run R)
      → All CheapResult ss
      → (collect net ss s).total_credits ≤ s.total_credits + most * length (settled_ids ss)
  unfolding collect
  collect-total [] s h = omega arith
  collect-total (fulfilled id r c ∷ ss) s h =
      let ih =
        collect-total ss
          (record s { results = put id r s.results; total_credits = s.total_credits + c }) h.1 in
      omega (arith, ih, h.0)
  collect-total (rejected id ∷ ss) s h =
      let ih = collect-total ss (record s { errors = s.errors ++ failed id ∷ [] }) h.1 in
      omega (arith, ih)

  pub length-execute_all :
      (results : Dict R) (pts : List PreparedTask)
      → length (settled_ids (execute_all net results pts)) ≤ length (task_ids pts)
  length-execute_all results pts =
      length-Within (settled_ids (execute_all net results pts)) (task_ids pts)
        (λ w. omega (arith, execute_all-ids net w results pts))
