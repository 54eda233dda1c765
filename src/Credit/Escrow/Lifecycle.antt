-- ===== src/Credit/Escrow/Lifecycle.antt =====
-- The life of an escrow as a state machine, and that the operations of src/credit/escrow.ts implement it.
use agentbnb.Prelude.{ℕ, ◌≡◌, refl, true, false, String, some, arith}
use agentbnb.Credit.Types.{
  EscrowStatus, held, started, progressing, abandoned, settled, released, lifecycle, is_finalizable,
  is_terminal, escrow_already_settled,
}
use agentbnb.Credit.Table.{select_first}
use agentbnb.Credit.Db.{Db, EscrowRow, err, escrow_at}
use agentbnb.Credit.Escrow.{release_escrow, confirm_escrow_debit}

-- One step of the lifecycle.
pub data Step : EscrowStatus → EscrowStatus → Type 0 where
  starts : Step held started
  progresses : Step held progressing
  progresses_on : Step started progressing
  abandons_started : Step started abandoned
  abandons : Step progressing abandoned
  settles : {s : EscrowStatus} → is_finalizable (lifecycle s) ≡ true → Step s settled
  releases : {s : EscrowStatus} → is_finalizable (lifecycle s) ≡ true → Step s released

-- Nothing leaves a terminal status.
pub terminal_stays : {s t : EscrowStatus} → Step s t → is_terminal (lifecycle s) ≡ false
unfolding is_terminal is_finalizable
terminal_stays starts = refl
terminal_stays progresses = refl
terminal_stays progresses_on = refl
terminal_stays abandons_started = refl
terminal_stays abandons = refl
terminal_stays (settles {s} h) = open_is_not_terminal s h
  where
    open_is_not_terminal :
        (s : EscrowStatus) → is_finalizable (lifecycle s) ≡ true → is_terminal (lifecycle s) ≡ false
    open_is_not_terminal s h = ground arith
terminal_stays (releases {s} h) = open_is_not_terminal s h
  where
    open_is_not_terminal :
        (s : EscrowStatus) → is_finalizable (lifecycle s) ≡ true → is_terminal (lifecycle s) ≡ false
    open_is_not_terminal s h = ground arith

module _ (id : String) (now : ℕ) (db : Db) (e : EscrowRow)
    (found : select_first (escrow_at id) db.escrows ≡ some e) where
  -- Releasing and confirming an escrow that is settled or released both fail with the error that
  -- it is settled already, and leave the database as it was.
  pub release_escrow_final :
      is_terminal e.status ≡ true
      → (release_escrow id now db ≡ (err escrow_already_settled, db))
        × (confirm_escrow_debit id now db ≡ (err escrow_already_settled, db))
  unfolding release_escrow confirm_escrow_debit is_terminal is_finalizable
  release_escrow_final h = (ground arith, ground arith)
