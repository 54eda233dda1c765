-- ===== src/Registry/FreeTier/Uses.antt =====
-- What src/registry/free-tier.ts counts.
use agentbnb.Prelude.{
  ℕ, suc, ◌+◌, ◌≡◌, refl, ap, Bool, true, false, ◌&&◌, String, List, [], ◌∷◌, str_eq, str_eq_iff,
  arith, inl, inr, Bool-cases, Option-cases, if◌then◌else◌,
}
use agentbnb.Credit.Table.{
  select_first, insert, select_first-insert_new, select_first-update_where_self,
  select_first-update_where_other,
}
use agentbnb.Registry.FreeTier.{
  UsageRow, usage_at, used_again, record_free_tier_use, usage_of, get_free_tier_usage,
}

abbrev is_use : String → String → String × String → Bool
is_use agent skill (a, s) = str_eq a agent && str_eq s skill

unfoldable pub run_uses : List ((String × String) × ℕ) → List UsageRow → List UsageRow
run_uses [] rows = rows
run_uses (((a, s), now) ∷ uses) rows = run_uses uses (record_free_tier_use a s now rows)

unfoldable pub uses_of : String → String → List ((String × String) × ℕ) → ℕ
uses_of agent skill [] = 0
uses_of agent skill ((u, now) ∷ uses) =
    if is_use agent skill u then suc (uses_of agent skill uses) else uses_of agent skill uses

select_first-insert_other :
    (p : UsageRow → Bool) (r : UsageRow) (rows : List UsageRow)
    → p r ≡ false
    → select_first p (insert r rows) ≡ select_first p rows
unfolding select_first
select_first-insert_other p r [] h = ground (arith, h)
select_first-insert_other p r (x ∷ rows) h = ground (arith, select_first-insert_other p r rows h)

own_use :
    (a s : String) (now : ℕ) (rows : List UsageRow)
    → get_free_tier_usage a s (record_free_tier_use a s now rows)
      ≡ suc (get_free_tier_usage a s rows)
unfolding get_free_tier_usage record_free_tier_use
own_use a s now rows = elim (Option-cases (select_first (usage_at a s) rows)) [
  | inl e ↦
      rw (e, record_free_tier_use)
        (ap usage_of (
          select_first-insert_new (usage_at a s) _ rows e
            (ground (arith, str_eq_iff a a, str_eq_iff s s))))
  | inr (r, e) ↦
      rw (e, record_free_tier_use)
        (ap usage_of
          (select_first-update_where_self (usage_at a s) (used_again now) rows r (λ x. refl) e))
]

other_use :
    (agent skill a s : String) (now : ℕ) (rows : List UsageRow)
    → is_use agent skill (a, s) ≡ false
    → get_free_tier_usage agent skill (record_free_tier_use a s now rows)
      ≡ get_free_tier_usage agent skill rows
unfolding get_free_tier_usage record_free_tier_use
other_use agent skill a s now rows h = elim (Option-cases (select_first (usage_at a s) rows)) [
  | inl e ↦
      rw (e, record_free_tier_use)
        (ap usage_of (select_first-insert_other (usage_at agent skill) _ rows h))
  | inr (r, e) ↦
      rw (e, record_free_tier_use)
        (ap usage_of (
          select_first-update_where_other (usage_at a s) (usage_at agent skill) (used_again now)
            rows other))
]
  where
    other :
        (x : UsageRow)
        → usage_at a s x ≡ true
        → (usage_at agent skill x ≡ false) × (usage_at agent skill (used_again now x) ≡ false)
    other x hit = (apart, apart)
      where
        apart : usage_at agent skill x ≡ false
        apart = ground (
          arith,
          h,
          hit,
          str_eq_iff x.agent_public_key a,
          str_eq_iff x.skill_id s,
          str_eq_iff x.agent_public_key agent,
          str_eq_iff x.skill_id skill,
          str_eq_iff a agent,
          str_eq_iff s skill,
        )

-- A sequence of uses raises the usage of a skill by an agent by the number of these uses in it.
pub get-run_uses :
    (agent skill : String) (uses : List ((String × String) × ℕ)) (rows : List UsageRow)
    → get_free_tier_usage agent skill (run_uses uses rows)
      ≡ uses_of agent skill uses + get_free_tier_usage agent skill rows
unfolding run_uses uses_of
get-run_uses agent skill [] rows = omega arith
get-run_uses agent skill (((a, s), now) ∷ uses) rows =
    elim (Bool-cases (is_use agent skill (a, s))) [
      | inl e ↦ ground (
        arith,
        e,
        get-run_uses agent skill uses (record_free_tier_use a s now rows),
        own_use a s now rows,
        str_eq_iff a agent,
        str_eq_iff s skill,
      )
      | inr e ↦ ground (
        arith,
        e,
        get-run_uses agent skill uses (record_free_tier_use a s now rows),
        other_use agent skill a s now rows e,
      )
    ]
