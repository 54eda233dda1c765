-- ===== src/Credit/Supply.antt =====
-- The credits in circulation: the balances, the amounts that open escrows hold, and what is left on
-- vouchers, expired ones included. The code keeps no such sum; it measures what its operations move.
use agentbnb.Prelude.{
  ℕ, ◌+◌, ◌≤◌, ◌≡◌, refl, ◌∙◌, String, List, Bool, Option, some, arith, if◌then◌else◌,
}
use agentbnb.Credit.Types.{StoredStatus, is_finalizable}
use agentbnb.Credit.Table.{count, sum_of, column, select_first, select_first-some}
use agentbnb.Credit.Db.{Db, BalanceRow, EscrowRow, VoucherRow, balance_of, escrow_at, voucher_at}

abbrev pub total_balance : List BalanceRow → ℕ
total_balance = sum_of (λ r. r.balance)

abbrev pub open_amount : EscrowRow → ℕ
open_amount r = if is_finalizable r.status then r.amount else 0

abbrev pub in_escrow : List EscrowRow → ℕ
in_escrow = sum_of open_amount

abbrev pub on_vouchers : List VoucherRow → ℕ
on_vouchers = sum_of (λ r. r.remaining)

abbrev pub supply : Db → ℕ
supply db = total_balance db.balances + in_escrow db.escrows + on_vouchers db.vouchers

-- `owner` is the primary key of the balances, `id` that of the escrows and vouchers.
abbrev pub IsKeyed : List BalanceRow → Type 0
IsKeyed rows = (o : String) → count (balance_of o) rows ≤ 1

abbrev pub IsKeyedEscrow : List EscrowRow → Type 0
IsKeyedEscrow rows = (id : String) → count (escrow_at id) rows ≤ 1

abbrev pub IsKeyedVoucher : List VoucherRow → Type 0
IsKeyedVoucher rows = (id : String) → count (voucher_at id) rows ≤ 1

pub record HasKeys (db : Db) : Type 0 where
  pub balances : IsKeyed db.balances
  pub escrows : IsKeyedEscrow db.escrows
  pub vouchers : IsKeyedVoucher db.vouchers

pub count_one :
    {R : Type 0} (p : R → Bool) (rows : List R) {r : R}
    → count p rows ≤ 1
    → select_first p rows ≡ some r
    → count p rows ≡ 1
count_one p rows {r} keyed e = omega (arith, keyed, (select_first-some p rows r e).1)

-- What an escrow promises, whoever owns it.
abbrev pub terms_of : EscrowRow → ℕ × StoredStatus
terms_of r = (r.amount, r.status)

abbrev pub terms : String → Db → Option (ℕ × StoredStatus)
terms id db = column terms_of (select_first (escrow_at id) db.escrows)

-- What is kept by a step that only moves rows between owners.
pub record Keeps (before after : Db) : Type 0 where
  pub same_supply : supply after ≡ supply before
  pub keys : HasKeys after
  pub same_agents : after.agents ≡ before.agents
  pub same_terms : (id : String) → terms id after ≡ terms id before

pub Keeps-trans : {a b c : Db} → Keeps a b → Keeps b c → Keeps a c
Keeps-trans f g = record {
  same_supply = g.same_supply ∙ f.same_supply;
  keys = g.keys;
  same_agents = g.same_agents ∙ f.same_agents;
  same_terms = λ id. g.same_terms id ∙ f.same_terms id;
}

pub Keeps-refl : (db : Db) → HasKeys db → Keeps db db
Keeps-refl db keys = record {
  same_supply = refl;
  keys = keys;
  same_agents = refl;
  same_terms = λ id. refl;
}
