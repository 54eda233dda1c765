-- ===== src/Identity/Guarantors.antt =====
-- src/identity/guarantor.ts: people who vouch for agents, each for at most ten. A statement that breaks a
-- primary key throws, as SQLite does.
pub mod Counts
use agentbnb.Prelude.{
  ℕ, ◌+◌, ◌*◌, Bool, true, false, String, List, [], Option, none, some, leb, ltb, str_eq,
  if◌then◌else◌,
}
use agentbnb.Credit.Table.{select_first, update_where, delete_where, insert}

abbrev pub max_agents_per_guarantor : ℕ
max_agents_per_guarantor = 10

abbrev pub guarantor_credit_pool : ℕ
guarantor_credit_pool = 50

pub record GuarantorRecord : Type 0 where
  pub id : String
  pub github_login : String
  pub agent_count : ℕ
  pub credit_pool : ℕ
  pub created_at : ℕ

pub record AgentGuarantor : Type 0 where
  pub agent_id : String
  pub guarantor_id : String
  pub linked_at : ℕ

pub record OauthState : Type 0 where
  pub state : String
  pub created_at : ℕ

pub record Tables : Type 0 where
  pub guarantors : List GuarantorRecord
  pub agent_guarantors : List AgentGuarantor
  pub oauth_states : List OauthState

-- What `ensureGuarantorTables` leaves in a new file.
abbrev pub empty_tables : Tables
empty_tables = record { guarantors = []; agent_guarantors = []; oauth_states = [] }

pub data GuarantorError : Type 0 where
  guarantor_exists guarantor_not_found max_agents_exceeded agent_already_linked : GuarantorError
  config_error auth_error constraint_failed : GuarantorError

pub data Answer (A : Type 0) : Type 0 where
  answer : A → Answer A
  failed : GuarantorError → Answer A

abbrev pub login_is : String → GuarantorRecord → Bool
login_is login g = str_eq g.github_login login

abbrev pub id_is : String → GuarantorRecord → Bool
id_is id g = str_eq g.id id

abbrev pub agent_is : String → AgentGuarantor → Bool
agent_is agent_id l = str_eq l.agent_id agent_id

abbrev pub new_guarantor : String → String → ℕ → GuarantorRecord
new_guarantor id login now = record {
  id = id;
  github_login = login;
  agent_count = 0;
  credit_pool = guarantor_credit_pool;
  created_at = now;
}

-- `INSERT INTO guarantors`.
abbrev pub insert_guarantor : GuarantorRecord → Tables → Answer GuarantorRecord × Tables
insert_guarantor g t = elim (select_first (id_is g.id) t.guarantors) [
  | some old ↦ (failed constraint_failed, t)
  | none ↦ (answer g, record t { guarantors = insert g t.guarantors })
]

unfoldable pub register_guarantor : String → String → ℕ → Tables → Answer GuarantorRecord × Tables
register_guarantor github_login id now t =
    elim (select_first (login_is github_login) t.guarantors) [
      | some existing ↦ (failed guarantor_exists, t)
      | none ↦ insert_guarantor (new_guarantor id github_login now) t
    ]

unfoldable pub get_guarantor : String → Tables → Option GuarantorRecord
get_guarantor github_login t = select_first (login_is github_login) t.guarantors

abbrev pub add_link : String → String → ℕ → Tables → Tables
add_link agent_id guarantor_id now t = record t {
  agent_guarantors =
      insert (record { agent_id = agent_id; guarantor_id = guarantor_id; linked_at = now })
        t.agent_guarantors;
  guarantors =
      update_where (id_is guarantor_id) (λ g. record g { agent_count = g.agent_count + 1 })
        t.guarantors;
}

-- The link is there already, or both statements of the transaction run. The model returns
-- `none` where the code would return a missing row.
unfoldable pub link_agent_to_guarantor :
    String → String → ℕ → Tables → Answer (Option GuarantorRecord) × Tables
unfolding get_guarantor
link_agent_to_guarantor agent_id github_login now t =
    elim (select_first (login_is github_login) t.guarantors) [
      | none ↦ (failed guarantor_not_found, t)
      | some guarantor ↦
          if leb max_agents_per_guarantor guarantor.agent_count
          then (failed max_agents_exceeded, t)
          else elim (select_first (agent_is agent_id) t.agent_guarantors) [
            | some existing ↦ (failed agent_already_linked, t)
            | none ↦ (
              answer (get_guarantor github_login (add_link agent_id guarantor.id now t)),
              add_link agent_id guarantor.id now t,
            )
          ]
    ]

-- The join of both tables on the id of the guarantor.
unfoldable pub get_agent_guarantor : String → Tables → Option GuarantorRecord
get_agent_guarantor agent_id t = elim (select_first (agent_is agent_id) t.agent_guarantors) [
  | none ↦ none
  | some link ↦ select_first (id_is link.guarantor_id) t.guarantors
]

abbrev state_is : String → OauthState → Bool
state_is state s = str_eq s.state state

abbrev ten_minutes : ℕ
ten_minutes = 10 * 60 * 1000

-- The state that is drawn, if the client is configured; the URL that carries it is left out. Old states
-- are dropped.
unfoldable pub initiate_github_auth : Option String → String → ℕ → Tables → Answer String × Tables
initiate_github_auth client_id state now t = elim client_id [
  | none ↦ (failed config_error, t)
  | some c ↦
      if str_eq c ""
      then (failed config_error, t)
      else elim (select_first (state_is state) t.oauth_states) [
        | some old ↦ (failed constraint_failed, t)
        | none ↦ (
          answer state,
          record t {
            oauth_states =
                delete_where (λ s. ltb (s.created_at + ten_minutes) now)
                  (insert (record { state = state; created_at = now }) t.oauth_states);
          },
        )
      ]
]

-- `login` is what GitHub answers for the code: the verified login, or `none` where credentials, token
-- or user are missing.
unfoldable pub exchange_github_code :
    (String → Answer String) → String → String → Tables → Answer String × Tables
exchange_github_code login code state t = elim (select_first (state_is state) t.oauth_states) [
  | none ↦ (failed auth_error, t)
  | some s ↦ (login code, record t { oauth_states = delete_where (state_is state) t.oauth_states })
]
