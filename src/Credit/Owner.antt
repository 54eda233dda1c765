-- ===== src/Credit/Owner.antt =====
-- src/credit/owner-normalization.ts, with `resolveCanonicalIdentity` of
-- src/identity/agent-identity.ts: legacy owners are resolved to agent ids and their rows moved along.
-- All tables exist (`openCreditDb` makes them), so `tableExists` holds throughout.
pub mod Conserved
pub mod Canonical
pub mod Induction
use agentbnb.Prelude.{
  ℕ, ◌+◌, min, max, Bool, true, false, ◌&&◌, ◌||◌, not, String, List, [], ◌∷◌, ◌++◌, Option, none,
  some, Text, codes, all, any, length, leb, ◌==◌, str_eq, if◌then◌else◌,
}
use agentbnb.Credit.Table.{select_first, update_where, delete_where}
use agentbnb.Credit.Db.{
  Db, BalanceRow, TxRow, EscrowRow, ProviderRow, VoucherRow, MetricsRow, AgentRow, balance_of,
  provider_of, metrics_of, treasury, Action, ok,
}

-- `/^[a-f0-9]{16}$/`.
unfoldable pub is_hex16 : String → Bool
is_hex16 s =
    length (codes s) == 16
    && all (λ c. leb b'a' c && leb c b'f' || leb b'0' c && leb c b'9') (codes s)

abbrev legacy_is : String → AgentRow → Bool
legacy_is o r = elim r.legacy_owner [ none ↦ false | some l ↦ str_eq l o ]

abbrev agent_is : String → AgentRow → Bool
agent_is o r = str_eq r.agent_id o

-- `lookupAgent`.
unfoldable pub lookup_agent : String → List AgentRow → Option AgentRow
lookup_agent id agents = select_first (agent_is id) agents

-- `lookupAgentByOwner`.
unfoldable pub lookup_agent_by_owner : String → List AgentRow → Option AgentRow
lookup_agent_by_owner o agents = select_first (legacy_is o) agents

-- `none` is the unresolved identity.
unfoldable pub resolve_canonical_identity : String → List AgentRow → Option AgentRow
unfolding is_hex16 lookup_agent lookup_agent_by_owner
resolve_canonical_identity identifier agents =
    elim (if is_hex16 identifier then lookup_agent identifier agents else none) [
      | some r ↦ some r
      | none ↦ lookup_agent_by_owner identifier agents
    ]

unfoldable pub merge_balance_rows : String → String → ℕ → List BalanceRow → List BalanceRow
merge_balance_rows old new now rows = elim (select_first (balance_of old) rows) [
  | none ↦ rows
  | some o ↦ elim (select_first (balance_of new) rows) [
    | some n ↦ delete_where (balance_of old) (
        update_where (balance_of new)
          (λ r. record r { balance = r.balance + o.balance; updated_at = now }) rows)
    | none ↦ update_where (balance_of old) (λ r. record r { owner = new; updated_at = now }) rows
  ]
]

unfoldable pub merge_provider_registry_rows : String → String → List ProviderRow → List ProviderRow
merge_provider_registry_rows old new rows = elim (select_first (provider_of old) rows) [
  | none ↦ rows
  | some o ↦ elim (select_first (provider_of new) rows) [
    | some n ↦ delete_where (provider_of old) rows
    | none ↦ update_where (provider_of old) (λ r. record r { owner = new }) rows
  ]
]

-- The columns of the row that takes the old one in; a start of a cycle is never empty.
unfoldable pub merge_metrics : MetricsRow → MetricsRow → ℕ → MetricsRow → MetricsRow
merge_metrics o n now r = record {
  owner = r.owner;
  current_streak = max o.current_streak n.current_streak;
  longest_streak = max o.longest_streak n.longest_streak;
  total_hires = o.total_hires + n.total_hires;
  repeat_hires = o.repeat_hires + n.repeat_hires;
  feedback_count = o.feedback_count + n.feedback_count;
  feedback_sum = o.feedback_sum + n.feedback_sum;
  availability_checks = o.availability_checks + n.availability_checks;
  availability_hits = o.availability_hits + n.availability_hits;
  cycle_start = min o.cycle_start n.cycle_start;
  updated_at = now;
}

unfoldable pub merge_reliability_rows : String → String → ℕ → List MetricsRow → List MetricsRow
unfolding merge_metrics
merge_reliability_rows old new now rows = elim (select_first (metrics_of old) rows) [
  | none ↦ rows
  | some o ↦ elim (select_first (metrics_of new) rows) [
    | none ↦ update_where (metrics_of old) (λ r. record r { owner = new; updated_at = now }) rows
    | some n ↦
        delete_where (metrics_of old) (update_where (metrics_of new) (merge_metrics o n now) rows)
  ]
]

-- The body of `migrateCreditOwnerData`.
unfoldable pub move_rows : String → String → ℕ → Db → Db
unfolding merge_balance_rows merge_provider_registry_rows merge_reliability_rows
move_rows old new now db = record db {
  balances = merge_balance_rows old new now db.balances;
  transactions =
      update_where (λ r. str_eq r.owner old) (λ r. record r { owner = new }) db.transactions;
  escrows = update_where (λ r. str_eq r.owner old) (λ r. record r { owner = new }) db.escrows;
  providers = merge_provider_registry_rows old new db.providers;
  vouchers = update_where (λ r. str_eq r.owner old) (λ r. record r { owner = new }) db.vouchers;
  metrics = merge_reliability_rows old new now db.metrics;
}

unfoldable pub migrate_credit_owner_data : String → String → ℕ → Db → Db
migrate_credit_owner_data old new now db =
    if str_eq old "" || str_eq new "" || str_eq old new then db else move_rows old new now db

-- `Set.prototype.add`.
unfoldable pub add_alias : String → List String → List String
add_alias a set = if any (λ b. str_eq b a) set then set else set ++ a ∷ []

abbrev pub add_legacy : Option String → String → List String → List String
add_legacy none id set = set
add_legacy (some l) id set = if str_eq l "" || str_eq l id then set else add_alias l set

-- The aliases whose rows are moved to the resolved agent.
unfoldable pub aliases : String → AgentRow → List String
unfolding add_alias
aliases owner agent =
    add_legacy agent.legacy_owner agent.agent_id
      (if str_eq owner agent.agent_id then [] else add_alias owner [])

unfoldable pub migrate_all : List String → String → ℕ → Db → Db
unfolding migrate_credit_owner_data
migrate_all [] new now db = db
migrate_all (a ∷ rest) new now db =
    migrate_all rest new now (migrate_credit_owner_data a new now db)

abbrev pub canonicalize_as : Option AgentRow → String → ℕ → Db → String × Db
canonicalize_as none owner now db = (owner, db)
canonicalize_as (some agent) owner now db =
    (agent.agent_id, migrate_all (aliases owner agent) agent.agent_id now db)

-- `canonicalizeCreditOwner` at time `now`: the canonical owner, and the database afterwards.
unfoldable pub canonicalize_credit_owner : String → ℕ → Db → String × Db
canonicalize_credit_owner owner now db =
    if str_eq owner "" || str_eq owner treasury
    then (owner, db)
    else canonicalize_as (resolve_canonical_identity owner db.agents) owner now db

-- The same in a chain of actions.
abbrev pub canonicalize : String → ℕ → Action String
canonicalize owner now db = let (o, db') = canonicalize_credit_owner owner now db in (ok o, db')
