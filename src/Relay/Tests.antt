-- ===== src/Relay/Tests.antt =====
-- A settlement over the relay at a small database.
use agentbnb.Prelude.{◌≡◌, ℕ, pos, refl, true, false, none, [], ◌∷◌, arith}
use agentbnb.Credit.Types.{held, lifecycle, from_balance, is_finalizable}
use agentbnb.Credit.Table.{select_first, count}
use agentbnb.Credit.Db.{Db, EscrowRow, open_credit_db}
use agentbnb.Credit.Supply.{HasKeys}
use agentbnb.Credit.Owner.Canonical.{all-IsCanonical}
use agentbnb.Conductor.Json.{Json, object, member, number, no_field}
use agentbnb.Relay.Escrow.{EscrowSettleResult, RelayError, answer, failed, process_escrow_settle}
use agentbnb.Relay.Escrow.Once.{AddsUp, process_escrow_settle_once}

abbrev row : EscrowRow
row = record {
  id = "e";
  owner = "ann";
  amount = 40;
  card_id = "bob:tts";
  status = lifecycle held;
  created_at = 1;
  settled_at = none;
  funding_source = from_balance;
}

abbrev db : Db
db = record open_credit_db {
  balances = (record { owner = "ann"; balance = 60; updated_at = 1 }) ∷ [];
  escrows = row ∷ [];
}

db-HasKeys : HasKeys db
unfolding count
db-HasKeys = record {
  balances = λ o. ground arith;
  escrows = λ id. ground arith;
  vouchers = λ id. ground arith;
}

process_escrow_settle_once_example :
    (let (a, after) = process_escrow_settle (λ d s. false) "e" true "bob" none "ann" 5 db in
      ((r : EscrowSettleResult) × (a ≡ answer r) × AddsUp true 40 r)
      × ((error : RelayError) × (process_escrow_settle
              (λ d s. false)
              "e"
              false
              "eve"
              none
              "ann"
              6
              after
            ≡ (failed error, after))))
unfolding select_first is_finalizable
process_escrow_settle_once_example =
    process_escrow_settle_once (λ d s. false) "e" true "bob" none "ann" 5 db row false "eve" none
      "ann" 6 db-HasKeys (all-IsCanonical "bob") refl refl refl

abbrev priced : ℕ → Json
priced n =
    object
      (member "pricing" (object (member "credits_per_call" (number (pos n)) no_field)) no_field)
