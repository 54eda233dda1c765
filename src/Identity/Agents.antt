-- ===== src/Identity/Agents.antt =====
-- src/identity/agent-identity.ts: the table of the agents, and the canonical identity of an identifier.
pub mod Prefix
use agentbnb.Prelude.{
  ℕ, Bool, true, false, ◌&&◌, ltb, String, str_append, List, [], ◌∷◌, Option, none, some, str_eq,
  ◌==◌, if◌then◌else◌,
}
use Prim.Native.Char.{code}
use agentbnb.Credit.Table.{select_first, select_all, update_where, insert}
use agentbnb.Credit.Order.{order_by}
use agentbnb.Credit.Owner.{is_hex16}

pub record AgentRecord : Type 0 where
  pub agent_id : String
  pub display_name : String
  pub public_key : String
  pub operator_id : Option String
  pub server_id : Option String
  pub legacy_owner : Option String
  pub created_at : ℕ
  pub updated_at : ℕ

-- The columns that may be changed: `none` is a column that is not given.
pub record AgentUpdates : Type 0 where
  pub display_name : Option String
  pub operator_id : Option (Option String)
  pub server_id : Option (Option String)
  pub legacy_owner : Option (Option String)

pub data AgentError : Type 0 where
  agent_exists agent_not_found : AgentError

pub data Stored (A : Type 0) : Type 0 where
  stored : A → Stored A
  refused : AgentError → Stored A

abbrev pub has_id : String → AgentRecord → Bool
has_id agent_id a = str_eq a.agent_id agent_id

abbrev pub is_text : String → Option String → Bool
is_text s none = false
is_text s (some t) = str_eq t s

unfoldable pub lookup_agent : String → List AgentRecord → Option AgentRecord
lookup_agent agent_id rows = select_first (has_id agent_id) rows

unfoldable pub lookup_agent_by_owner : String → List AgentRecord → Option AgentRecord
lookup_agent_by_owner owner rows = select_first (λ a. is_text owner a.legacy_owner) rows

-- The times of the record that is passed are set here.
unfoldable pub create_agent_record :
    AgentRecord → ℕ → List AgentRecord → Stored AgentRecord × List AgentRecord
create_agent_record agent now rows = elim (select_first (has_id agent.agent_id) rows) [
  | some old ↦ (refused agent_exists, rows)
  | none ↦
      (let row = record agent { created_at = now; updated_at = now } in
        (stored row, insert row rows))
]

unfoldable pub list_agents_by_operator : String → List AgentRecord → List AgentRecord
list_agents_by_operator operator_id rows =
    order_by (λ a b. ltb a.created_at b.created_at)
      (select_all (λ a. is_text operator_id a.operator_id) rows)

abbrev pub given {ℓ} : {A : Type ℓ} → Option A → A → A
given none old = old
given (some new) old = new

abbrev pub updated : AgentUpdates → ℕ → AgentRecord → AgentRecord
updated u now a = record a {
  display_name = given u.display_name a.display_name;
  operator_id = given u.operator_id a.operator_id;
  server_id = given u.server_id a.server_id;
  legacy_owner = given u.legacy_owner a.legacy_owner;
  updated_at = now;
}

abbrev is_nothing : AgentUpdates → Bool
is_nothing u =
    is_none u.display_name && is_none u.operator_id && is_none u.server_id && is_none u.legacy_owner
  where
    is_none : {A : Type 0} → Option A → Bool
    is_none none = true
    is_none (some a) = false

-- Nothing is written without a column, and an unknown agent is an error.
unfoldable pub update_agent_record :
    String → AgentUpdates → ℕ → List AgentRecord → Stored (Unit {0}) × List AgentRecord
update_agent_record agent_id u now rows =
    if is_nothing u then (stored tt, rows) else elim (select_first (has_id agent_id) rows) [
      | none ↦ (refused agent_not_found, rows)
      | some a ↦ (stored tt, update_where (has_id agent_id) (updated u now) rows)
    ]

unfoldable pub resolve_identifier : String → List AgentRecord → String
unfolding lookup_agent lookup_agent_by_owner
resolve_identifier identifier rows =
    elim (if is_hex16 identifier then lookup_agent identifier rows else none) [
      | some a ↦ a.agent_id
      | none ↦ elim (lookup_agent_by_owner identifier rows) [
        | some a ↦ a.agent_id
        | none ↦ identifier
      ]
    ]

pub data Source : Type 0 where
  by_agent_id by_legacy_owner unresolved : Source

pub record CanonicalIdentity : Type 0 where
  pub agent_id : String
  pub legacy_owner : Option String
  pub resolved : Bool
  pub source : Source

abbrev identity_of : Source → AgentRecord → CanonicalIdentity
identity_of s a = record {
  agent_id = a.agent_id;
  legacy_owner = a.legacy_owner;
  resolved = true;
  source = s;
}

unfoldable pub resolve_canonical_identity : String → List AgentRecord → CanonicalIdentity
unfolding lookup_agent lookup_agent_by_owner
resolve_canonical_identity identifier rows =
    elim (if is_hex16 identifier then lookup_agent identifier rows else none) [
      | some a ↦ identity_of by_agent_id a
      | none ↦ elim (lookup_agent_by_owner identifier rows) [
        | some a ↦ identity_of by_legacy_owner a
        | none ↦ record {
          agent_id = identifier;
          legacy_owner = none;
          resolved = false;
          source = unresolved;
        }
      ]
    ]

unfoldable pub same_agent_identity : String → String → List AgentRecord → Bool
unfolding resolve_canonical_identity
same_agent_identity left right rows =
    let l = resolve_canonical_identity left rows in
    let r = resolve_canonical_identity right rows in
    if l.resolved && r.resolved then str_eq l.agent_id r.agent_id else str_eq left right

-- What follows the prefix, if the text starts with it.
unfoldable pub after_prefix : String → String → Option String
after_prefix String.[] s = some s
after_prefix (String.◌∷◌ c p) String.[] = none
after_prefix (String.◌∷◌ c p) (String.◌∷◌ d s) =
    let rest = after_prefix p s in if code c == code d then rest else none

abbrev pub hub_prefix : String
hub_prefix = "agent-"

abbrev pub try_original : CanonicalIdentity → String → String
try_original original stripped = if original.resolved then original.agent_id else stripped

-- A text without the prefix is looked up once.
unfoldable pub canonicalize_stripped : Option String → String → List AgentRecord → String
unfolding resolve_canonical_identity
canonicalize_stripped none identifier rows =
    let found = resolve_canonical_identity identifier rows in
    if found.resolved then found.agent_id else identifier
canonicalize_stripped (some stripped) identifier rows =
    let found = resolve_canonical_identity stripped rows in
    if found.resolved
    then found.agent_id
    else try_original (resolve_canonical_identity identifier rows) stripped

unfoldable pub canonicalize_agent_id : String → List AgentRecord → String
unfolding canonicalize_stripped after_prefix
canonicalize_agent_id identifier rows =
    if str_eq identifier ""
    then ""
    else canonicalize_stripped (after_prefix hub_prefix identifier) identifier rows
