-- ===== src/Credit/Db.antt =====
-- The tables of the credit database (src/credit/ledger.ts, `CREDIT_SCHEMA`, with the tables of
-- src/credit/reliability-metrics.ts and src/identity/agent-identity.ts), and the way the code runs on it.
-- Times are numbers, which ISO texts order alike; credits are whole and not negative.
use agentbnb.Prelude.{ℕ, Bool, String, List, [], Option, str_eq}
use agentbnb.Credit.Types.{StoredStatus, FundingSource, TxReason, CreditError, ℤ}

pub record BalanceRow : Type 0 where
  pub owner : String
  pub balance : ℕ
  pub updated_at : ℕ

-- The random id of a transaction is read nowhere and left out.
pub record TxRow : Type 0 where
  pub owner : String
  pub amount : ℤ
  pub reason : TxReason
  pub reference_id : Option String
  pub created_at : ℕ

pub record EscrowRow : Type 0 where
  pub id : String
  pub owner : String
  pub amount : ℕ
  pub card_id : String
  pub status : StoredStatus
  pub created_at : ℕ
  pub settled_at : Option ℕ
  pub funding_source : FundingSource

pub record ProviderRow : Type 0 where
  pub owner : String
  pub provider_number : ℕ
  pub registered_at : ℕ

pub record VoucherRow : Type 0 where
  pub id : String
  pub owner : String
  pub amount : ℕ
  pub remaining : ℕ
  pub created_at : ℕ
  pub expires_at : ℕ
  pub is_active : Bool

-- Feedback scores are whole numbers of some unit.
pub record MetricsRow : Type 0 where
  pub owner : String
  pub current_streak : ℕ
  pub longest_streak : ℕ
  pub total_hires : ℕ
  pub repeat_hires : ℕ
  pub feedback_count : ℕ
  pub feedback_sum : ℕ
  pub availability_checks : ℕ
  pub availability_hits : ℕ
  pub cycle_start : ℕ
  pub updated_at : ℕ

-- The columns of `agents` that the credit system reads.
pub record AgentRow : Type 0 where
  pub agent_id : String
  pub legacy_owner : Option String

pub record Db : Type 0 where
  pub balances : List BalanceRow
  pub transactions : List TxRow
  pub escrows : List EscrowRow
  pub providers : List ProviderRow
  pub vouchers : List VoucherRow
  pub metrics : List MetricsRow
  pub agents : List AgentRow

-- What `openCreditDb` leaves in a new file.
abbrev pub open_credit_db : Db
open_credit_db = record {
  balances = [];
  transactions = [];
  escrows = [];
  providers = [];
  vouchers = [];
  metrics = [];
  agents = [];
}

pub data Result (A : Type 0) : Type 0 where
  ok : A → Result A
  err : CreditError → Result A

-- What was written before an exception stays written, but inside `transaction`.
abbrev pub Action : Type 0 → Type 0
Action A = Db → Result A × Db

abbrev pub pure : {A : Type 0} → A → Action A
pure a db = (ok a, db)

abbrev pub throw : {A : Type 0} → CreditError → Action A
throw e db = (err e, db)

abbrev pub continue_with : {A B : Type 0} → (A → Action B) → Result A × Db → Result B × Db
continue_with f (ok a, db) = f a db
continue_with f (err e, db) = (err e, db)

infixl 5 ◌>>=◌ ◌>>◌
abbrev pub ◌>>=◌ : {A B : Type 0} → Action A → (A → Action B) → Action B
◌>>=◌ m f db = continue_with f (m db)

abbrev pub ◌>>◌ : {A B : Type 0} → Action A → Action B → Action B
m >> k = m >>= λ _. k

abbrev pub modify : (Db → Db) → Action (Unit {0})
modify f db = (ok tt, f db)

-- `db.transaction(body)()`: an exception rolls the writes of the body back.
abbrev pub commit : {A : Type 0} → Db → Result A × Db → Result A × Db
commit db (ok a, db') = (ok a, db')
commit db (err e, db') = (err e, db)

abbrev pub transaction : {A : Type 0} → Action A → Action A
transaction m db = commit db (m db)

-- The tests of WHERE clauses on an owner.
abbrev pub balance_of : String → BalanceRow → Bool
balance_of o r = str_eq r.owner o

abbrev pub provider_of : String → ProviderRow → Bool
provider_of o r = str_eq r.owner o

abbrev pub metrics_of : String → MetricsRow → Bool
metrics_of o r = str_eq r.owner o

abbrev pub escrow_at : String → EscrowRow → Bool
escrow_at id r = str_eq r.id id

abbrev pub voucher_at : String → VoucherRow → Bool
voucher_at id r = str_eq r.id id

abbrev pub treasury : String
treasury = "platform_treasury"
