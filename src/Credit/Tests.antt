-- ===== src/Credit/Tests.antt =====
-- Runs of the credit system of src/credit at a small database.
use agentbnb.Credit.Budget.{can_spend}
use agentbnb.Prelude.{◌≤◌, ℕ, ◌+◌, ◌≡◌, refl, ◌⊎◌, true, false, [], ◌∷◌, none, some, arith}
use agentbnb.Credit.Types.{
  is_terminal, is_finalizable, held, started, settled, released, lifecycle, from_balance,
  escrow_invalid_transition, refund, pos,
}
use agentbnb.Credit.Table.{select_all, sum_of, select_first, count}
use agentbnb.Credit.Db.{Db, EscrowRow, TxRow, ok, err, open_credit_db}
use agentbnb.Credit.Supply.{supply, HasKeys, terms, Keeps}
use agentbnb.Credit.Owner.{canonicalize_credit_owner, resolve_canonical_identity}
use agentbnb.Credit.Owner.Conserved.{canonicalize_credit_owner-Keeps}
use agentbnb.Credit.Owner.Canonical.{all-IsCanonical}
use agentbnb.Credit.Ledger.{earliest, max_provider_number, get_provider_bonus}
use agentbnb.Credit.Ledger.Numbers.{AreDistinct}
use agentbnb.Credit.Escrow.{
  fee_amount, bonus_amount, hold_escrow, settle_escrow, release_escrow, confirm_escrow_debit,
  mark_escrow_started,
}
use agentbnb.Credit.Ledger.{get_balance}
use agentbnb.Credit.Budget.Reserve.{can_spend_keeps_reserve}
use agentbnb.Credit.Remote.{Receipt, settle_requester_escrow, settle_provider_earning}
use agentbnb.Credit.Remote.Fee.{remote_settlement_burns_fee}
use agentbnb.Credit.Escrow.Finished.{mark, settle, release, run_operations, run_operations_final}
use agentbnb.Credit.Escrow.Hold.{hold_escrow_conserves}
use agentbnb.Credit.Escrow.Settlement.{settle_escrow_conserves}
use agentbnb.Credit.Escrow.Refund.{release_escrow_refunds}
use agentbnb.Credit.Escrow.Confirm.{confirm_escrow_debit_debits}
use agentbnb.Credit.Escrow.Lifecycle.{Step}
use agentbnb.Credit.Escrow.Marks.{start, run_mark_steps}

-- A requester with 60 credits, and 40 more in escrow.
abbrev held_row : EscrowRow
held_row = record {
  id = "e";
  owner = "ann";
  amount = 40;
  card_id = "card";
  status = lifecycle held;
  created_at = 1;
  settled_at = none;
  funding_source = from_balance;
}

abbrev before : Db
before = record open_credit_db {
  balances = (record { owner = "ann"; balance = 60; updated_at = 1 }) ∷ [];
  escrows = held_row ∷ [];
}

before-HasKeys : HasKeys before
unfolding count
before-HasKeys = record {
  balances = λ o. ground arith;
  escrows = λ id. ground arith;
  vouchers = λ id. ground arith;
}

empty-HasKeys : HasKeys open_credit_db
unfolding count
empty-HasKeys = record {
  balances = λ o. ground arith;
  escrows = λ id. ground arith;
  vouchers = λ id. ground arith;
}

settle_escrow_conserves_example :
    (let (result, db') = settle_escrow "e" "bob" 5 before in
      (result ≡ ok tt)
      × HasKeys db'
      × (terms "e" db' ≡ some (40, lifecycle settled))
      × (supply db' ≡ 138))
unfolding select_first is_finalizable sum_of bonus_amount fee_amount canonicalize_credit_owner
    resolve_canonical_identity get_provider_bonus max_provider_number
settle_escrow_conserves_example =
    settle_escrow_conserves "e" "bob" 5 before held_row before-HasKeys (all-IsCanonical "bob") refl
      refl

release_escrow_refunds_example :
    (let (result, db') = release_escrow "e" 5 before in
      (result ≡ ok tt)
      × HasKeys db'
      × (terms "e" db' ≡ some (40, lifecycle released))
      × (supply db' + 0 ≡ 100))
unfolding select_first is_finalizable count sum_of canonicalize_credit_owner
    resolve_canonical_identity
release_escrow_refunds_example =
    release_escrow_refunds "e" 5 before held_row before-HasKeys refl refl

confirm_escrow_debit_debits_example :
    (let (result, db') = confirm_escrow_debit "e" 5 before in
      (result ≡ ok tt)
      × HasKeys db'
      × (terms "e" db' ≡ some (40, lifecycle settled))
      × (supply db' + 40 ≡ 100))
unfolding select_first is_finalizable sum_of
confirm_escrow_debit_debits_example =
    confirm_escrow_debit_debits "e" 5 before held_row before-HasKeys refl refl

hold_escrow_conserves_example :
    (let (result, db') = hold_escrow "ann" 25 "card" "f" 5 before in
      (result ≡ ok "f")
      × (terms "f" db' ≡ some (25, lifecycle held))
      × HasKeys db'
      × (supply db' ≡ 100))
unfolding select_first earliest sum_of select_all is_finalizable canonicalize_credit_owner
    resolve_canonical_identity
hold_escrow_conserves_example =
    hold_escrow_conserves "ann" 25 "card" "f" 5 before before-HasKeys refl

run_mark_steps_example :
    (let (result, db') = mark_escrow_started "e" 5 before in
      HasKeys db'
      × (supply db' ≡ 100)
      × (((true ≡ true)
            × (result ≡ ok tt)
            × (terms "e" db' ≡ some (40, lifecycle started))
            × ((held ≡ started) ⊎ Step held started))
          ⊎ ((true ≡ false) × (result ≡ err escrow_invalid_transition) × (db' ≡ before))))
unfolding select_first sum_of is_finalizable
run_mark_steps_example = run_mark_steps start "e" 5 before held_row held before-HasKeys refl refl

-- The same database once the escrow was released.
abbrev over_row : EscrowRow
over_row = record held_row { status = lifecycle released; settled_at = some 2 }

abbrev over : Db
over = record before { escrows = over_row ∷ [] }

canonicalize_credit_owner-Keeps_example : Keeps before (canonicalize_credit_owner "ann" 5 before).1
canonicalize_credit_owner-Keeps_example =
    canonicalize_credit_owner-Keeps "ann" 5 before before-HasKeys

abbrev with_provider : Db
with_provider = record before {
  providers = (record { owner = "bob"; provider_number = 1; registered_at = 1 }) ∷ [];
}

one_number : AreDistinct with_provider.providers
unfolding count
one_number n = ground arith

can_spend_keeps_reserve_example :
    (let (result, db') = hold_escrow "ann" 25 "card" "f" 5 before in
      (result ≡ ok "f") × ((left : ℕ) × (get_balance "ann" 5 db' ≡ (ok left, db')) × (20 ≤ left)))
unfolding select_first can_spend canonicalize_credit_owner resolve_canonical_identity
can_spend_keeps_reserve_example =
    can_spend_keeps_reserve "ann" 20 25 "card" "f" 5 before before-HasKeys (all-IsCanonical "ann")
      refl (omega arith) refl

abbrev receipt : Receipt
receipt = record { amount = 40; nonce = "n" }

remote_settlement_burns_fee_example :
    (let (paid, requester_after) = settle_requester_escrow "e" 5 before in
      let (earned, provider_after) = settle_provider_earning "bob" receipt 5 open_credit_db in
      (paid ≡ ok tt)
      × (earned ≡ ok tt)
      × (supply requester_after + supply provider_after + 2 ≡ supply before + 0)
      × (settle_provider_earning "bob" receipt 6 provider_after ≡ (ok tt, provider_after)))
unfolding select_first is_finalizable fee_amount sum_of
remote_settlement_burns_fee_example =
    remote_settlement_burns_fee "e" "bob" 5 6 receipt before open_credit_db held_row before-HasKeys
      empty-HasKeys (all-IsCanonical "bob") refl refl refl refl

over-HasKeys : HasKeys over
unfolding count
over-HasKeys = record {
  balances = λ o. ground arith;
  escrows = λ id. ground arith;
  vouchers = λ id. ground arith;
}

run_operations_final_example :
    (terms "e" (run_operations ((settle "bob", 6) ∷ (release, 7) ∷ (mark start, 8) ∷ []) "e" over)
      ≡ some (40, lifecycle released))
    × (supply (run_operations ((settle "bob", 6) ∷ (release, 7) ∷ (mark start, 8) ∷ []) "e" over)
        ≡ 60)
    × HasKeys (run_operations ((settle "bob", 6) ∷ (release, 7) ∷ (mark start, 8) ∷ []) "e" over)
unfolding select_first is_terminal sum_of is_finalizable
run_operations_final_example =
    run_operations_final ((settle "bob", 6) ∷ (release, 7) ∷ (mark start, 8) ∷ []) "e" 40 released
      over over-HasKeys refl refl

abbrev old_row : TxRow
old_row = record {
  owner = "ann";
  amount = pos 5;
  reason = refund;
  reference_id = none;
  created_at = 3;
}

abbrev logged : Db
logged = record open_credit_db { transactions = old_row ∷ (record old_row { created_at = 8 }) ∷ [] }
