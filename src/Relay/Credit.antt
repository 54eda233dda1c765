-- ===== src/Relay/Credit.antt =====
-- src/relay/relay-credit.ts: the escrow of a relayed request, and the fee of an orchestration at the
-- rates of the code without the optional package `@agentbnb/core` (10%, rounded up, from 1 to 20).
use agentbnb.Prelude.{ℕ, zero, suc, ◌+◌, ◌/◌, String, Option, none, some, min, max}
use agentbnb.Credit.Db.{Action, pure}
use agentbnb.Credit.Escrow.{hold_escrow, settle_escrow, release_escrow}

unfoldable pub hold_for_relay : String → ℕ → String → String → ℕ → Action String
hold_for_relay owner amount card_id id now = hold_escrow owner amount card_id id now

unfoldable pub settle_for_relay : String → String → ℕ → Action (Unit {0})
settle_for_relay escrow_id recipient_owner now = settle_escrow escrow_id recipient_owner now

unfoldable pub release_for_relay : Option String → ℕ → Action (Unit {0})
release_for_relay none now = pure tt
release_for_relay (some escrow_id) now = release_escrow escrow_id now

unfoldable pub calculate_conductor_fee : ℕ → ℕ
calculate_conductor_fee zero = 0
calculate_conductor_fee (suc n) = max 1 (min 20 ((suc n + 9) / 10))
