-- ===== src/Credit/Escrow/Bonus.antt =====
-- The parts of a settlement (src/credit/escrow.ts, `settleEscrow`): the fee, the early-provider bonus and
-- the count of the hire.
use agentbnb.Prelude.{
  ℕ, ◌+◌, ◌-◌, ◌≤◌, ◌≡◌, refl, inl, inr, false, ◌&&◌, String, Option, arith, ltb, subst, Bool-cases,
}
use agentbnb.Credit.Types.{StoredStatus}
use agentbnb.Credit.Table.{count}
use agentbnb.Credit.Db.{Db, balance_of, treasury}
use agentbnb.Credit.Run.{Does}
use agentbnb.Credit.Owner.{canonicalize_credit_owner}
use agentbnb.Credit.Booked.{
  Booked, open_balance-IsKeyed, open_balance-total, open_balance-keeps_row, add_balance-total,
  add_balance-IsKeyed, canonicalize_credit_owner-Booked,
}
use agentbnb.Credit.Ledger.{open_balance}
use agentbnb.Credit.Metrics.{record_successful_hire}
use agentbnb.Credit.Escrow.{fee_amount, bonus_amount, pay_bonus}

-- The fee is at most the amount, so paying fee and rest splits the amount exactly.
pub fee_split : (amount : ℕ) → amount - fee_amount amount + fee_amount amount ≡ amount
unfolding fee_amount
fee_split amount = omega arith

no_bonus :
    (amount bonus : ℕ)
    → (ltb 2 bonus && ltb 0 (bonus_amount amount bonus)) ≡ false
    → bonus_amount amount bonus ≡ 0
unfolding bonus_amount
no_bonus amount bonus h = elim (Bool-cases (ltb 2 bonus)) [
  | inl many ↦ ground arith
  | inr few ↦ let none_left : bonus - 2 ≡ 0 = ground arith in rw none_left (omega arith)
]

pub pay_bonus-Booked :
    (r : String) (id : String) (t : Option (ℕ × StoredStatus)) (n : ℕ) (db : Db)
    (amount bonus now : ℕ)
    → Booked id t n db
    → 1 ≤ count (balance_of r) db.balances
    → Does (pay_bonus id r amount bonus now) db (λ _. Booked id t (n + bonus_amount amount bonus))
unfolding pay_bonus
pay_bonus-Booked r id t n db amount bonus now b row =
    elim (Bool-cases (ltb 2 bonus && ltb 0 (bonus_amount amount bonus))) [
      | inl due ↦
          let opened = open_balance-IsKeyed treasury 0 now db.balances b.keys.balances in
          rw (due, pay_bonus)
            (record {
              value = tt;
              after = _;
              runs = refl;
              holds = record {
                keys = record {
                  balances = add_balance-IsKeyed r (bonus_amount amount bonus) now _ opened;
                  escrows = b.keys.escrows;
                  vouchers = b.keys.vouchers;
                };
                has_terms = b.has_terms;
                supplied = ground (
                  arith,
                  b.supplied,
                  row,
                  add_balance-total r (bonus_amount amount bonus) now
                      (open_balance treasury 0 now db.balances) opened,
                  open_balance-total treasury now db.balances,
                  open_balance-keeps_row treasury r 0 now db.balances,
                );
              };
            })
      | inr none_due ↦
          rw (none_due, pay_bonus)
            (record {
              value = tt;
              after = db;
              runs = refl;
              holds =
                  subst (λ m. Booked id t m db) (omega (arith, no_bonus amount bonus none_due)) b;
            })
    ]

pub record_successful_hire-Booked :
    (id : String) (t : Option (ℕ × StoredStatus)) (n : ℕ) (db : Db) (p c : String) (now : ℕ)
    → Booked id t n db
    → Does (record_successful_hire p c now) db (λ _. Booked id t n)
unfolding record_successful_hire
record_successful_hire-Booked id t n db p c now b =
    let b1 = canonicalize_credit_owner-Booked id t n db b p now in
    let b2 = canonicalize_credit_owner-Booked id t n _ b1 c now in
    let b3 =
      canonicalize_credit_owner-Booked id t n _ b2 (canonicalize_credit_owner p now db).0 now in
    record {
      value = tt;
      after = (record_successful_hire p c now db).1;
      runs = refl;
      holds = record {
        keys = record {
          balances = b3.keys.balances;
          escrows = b3.keys.escrows;
          vouchers = b3.keys.vouchers;
        };
        has_terms = b3.has_terms;
        supplied = b3.supplied;
      };
    }
