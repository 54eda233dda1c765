-- ===== src/Credit/Escrow/Taken.antt =====
-- What `holdEscrow` (src/credit/escrow.ts) takes from a balance and from the chosen voucher.
use agentbnb.Prelude.{
  ℕ, ◌+◌, ◌-◌, ◌≤◌, ◌≡◌, inl, inr, Bool, true, ◌&&◌, String, List, [], ◌∷◌, some, arith, leb,
  str_eq, str_eq_iff, Bool-cases, Option-cases,
}
use agentbnb.Credit.Table.{select_first, select_all, count, update_where, sum_of-update_where}
use agentbnb.Credit.Db.{BalanceRow, VoucherRow, balance_of, voucher_at}
use agentbnb.Credit.Supply.{total_balance, on_vouchers, IsKeyed, IsKeyedVoucher}
use agentbnb.Credit.Ledger.{earliest}
use agentbnb.Credit.Escrow.{take_balance, covers}

-- Lemmas on the rows that two tests select.
count_and-le : {R : Type 0} (p q : R → Bool) (rs : List R) → count (λ r. p r && q r) rs ≤ count p rs
unfolding count
count_and-le p q [] = omega arith
count_and-le p q (r ∷ rs) = ground (arith, count_and-le p q rs)

select_first_and :
    {R : Type 0} (p q : R → Bool) (rs : List R) (r : R)
    → select_first p rs ≡ some r
    → q r ≡ true
    → 1 ≤ count (λ x. p x && q x) rs
unfolding count select_first
select_first_and p q [] r h g = cc
select_first_and p q (x ∷ rs) r h g = ground (arith, select_first_and p q rs r)

earliest_among :
    (q : VoucherRow → Bool) (rs : List VoucherRow) (v : VoucherRow)
    → earliest rs ≡ some v
    → q v ≡ true
    → 1 ≤ count q rs
unfolding count earliest
earliest_among q [] v h g = cc
earliest_among q (x ∷ rs) v h g = elim (Option-cases (earliest rs)) [
  | inl e ↦ let same : x ≡ v = ground arith in ground arith
  | inr (w, e) ↦ elim (Bool-cases (leb x.created_at w.created_at)) [
    | inl first ↦ let same : x ≡ v = ground arith in ground arith
    | inr later ↦ ground (arith, earliest_among q rs v)
  ]
]

count-select_all-le :
    {R : Type 0} (p q : R → Bool) (rs : List R) → count q (select_all p rs) ≤ count q rs
unfolding count select_all
count-select_all-le p q [] = omega arith
count-select_all-le p q (x ∷ rs) = ground (arith, count-select_all-le p q rs)

earliest_found :
    (p q : VoucherRow → Bool) (rs : List VoucherRow) (v : VoucherRow)
    → earliest (select_all p rs) ≡ some v
    → q v ≡ true
    → 1 ≤ count q rs
earliest_found p q rs v h g =
    omega (arith, earliest_among q (select_all p rs) v h g, count-select_all-le p q rs)

-- What a hold takes from a balance that covers it.
pub take_balance-total :
    (o : String) (amount now : ℕ) (rows : List BalanceRow)
    → IsKeyed rows
    → covers (select_first (balance_of o) rows) amount ≡ true
    → total_balance (take_balance o amount now rows) + amount ≡ total_balance rows
take_balance-total o amount now rows keyed h =
    elim (Option-cases (select_first (balance_of o) rows)) [
      | inl e ↦ ground arith
      | inr (r, e) ↦ omega (
        arith,
        sum_of-update_where (λ r. balance_of o r && leb amount r.balance)
            (λ r. record r { balance = r.balance - amount; updated_at = now }) (λ r. r.balance)
            amount 0 rows (λ r h. ground arith)
            (omega (
              arith,
              keyed o,
              count_and-le (balance_of o) (λ r. leb amount r.balance) rows,
              select_first_and (balance_of o) (λ r. leb amount r.balance) rows r e (ground arith),
            )),
      )
    ]

-- What a hold takes from the voucher that was chosen.
pub consumed-total :
    (p : VoucherRow → Bool) (v : VoucherRow) (amount : ℕ) (rows : List VoucherRow)
    → IsKeyedVoucher rows
    → earliest (select_all p rows) ≡ some v
    → leb amount v.remaining ≡ true
    → on_vouchers (
          update_where
            (λ r. str_eq r.id v.id && leb amount r.remaining)
            (λ r. record r { remaining = r.remaining - amount })
            rows)
        + amount
      ≡ on_vouchers rows
consumed-total p v amount rows keyed e h = omega (
  arith,
  sum_of-update_where (λ r. str_eq r.id v.id && leb amount r.remaining)
      (λ r. record r { remaining = r.remaining - amount }) (λ r. r.remaining) amount 0 rows
      (λ r h. ground arith)
      (omega (
        arith,
        keyed v.id,
        count_and-le (voucher_at v.id) (λ r. leb amount r.remaining) rows,
        earliest_found p (λ r. voucher_at v.id r && leb amount r.remaining) rows v e
            (ground (arith, str_eq_iff v.id v.id)),
      )),
)
