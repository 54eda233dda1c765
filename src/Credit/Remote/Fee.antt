-- ===== src/Credit/Remote/Fee.antt =====
-- What a settlement between two machines does to the credits of both (src/credit/settlement.ts).
use agentbnb.Prelude.{ℕ, ◌+◌, ◌-◌, ◌≡◌, ap, true, String, none, some, arith}
use agentbnb.Credit.Types.{is_finalizable}
use agentbnb.Credit.Table.{select_first}
use agentbnb.Credit.Db.{Db, EscrowRow, ok, escrow_at}
use agentbnb.Credit.Supply.{supply, HasKeys}
use agentbnb.Credit.Owner.Canonical.{IsCanonical}
use agentbnb.Credit.Ledger.{earned_by}
use agentbnb.Credit.Ledger.Once.{record_earning_once}
use agentbnb.Credit.Escrow.{fee_amount}
use agentbnb.Credit.Escrow.Confirm.{confirm_escrow_debit_debits}
use agentbnb.Credit.Escrow.Bonus.{fee_split}
use agentbnb.Credit.Remote.{Receipt, settle_provider_earning, settle_requester_escrow}

-- A requester and a provider, each with unique keys: the escrow of the requester is open and of the receipt's
-- amount, the provider is canonical and has no earning with the nonce of the receipt. Then both
-- settlements succeed, together they burn exactly the network fee, and a second settlement of the
-- receipt changes nothing at the provider.
pub remote_settlement_burns_fee :
    (id provider : String) (now later : ℕ) (receipt : Receipt) (requester_db provider_db : Db)
    (e : EscrowRow)
    → HasKeys requester_db
    → HasKeys provider_db
    → IsCanonical provider provider_db.agents
    → select_first (escrow_at id) requester_db.escrows ≡ some e
    → is_finalizable e.status ≡ true
    → receipt.amount ≡ e.amount
    → select_first (earned_by receipt.nonce) provider_db.transactions ≡ none
    → (let (paid, requester_after) = settle_requester_escrow id now requester_db in
        let (earned, provider_after) = settle_provider_earning provider receipt now provider_db in
        (paid ≡ ok tt)
        × (earned ≡ ok tt)
        × (supply requester_after + supply provider_after + fee_amount e.amount
            ≡ supply requester_db + supply provider_db)
        × (settle_provider_earning provider receipt later provider_after ≡ (ok tt, provider_after)))
unfolding settle_provider_earning settle_requester_escrow
remote_settlement_burns_fee id provider now later receipt requester_db provider_db e rk pk c found
      can same fresh =
    let (paid, _, _, debited) = confirm_escrow_debit_debits id now requester_db e rk found can in
    let part = receipt.amount - fee_amount receipt.amount in
    let (earned, credited, again) =
      record_earning_once provider provider part part receipt.nonce now later provider_db pk c c
        fresh in
    (
      paid,
      earned,
      omega (arith, debited, credited, fee_split e.amount, same, ap fee_amount same),
      again,
    )
