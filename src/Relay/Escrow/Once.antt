-- ===== src/Relay/Escrow/Once.antt =====
-- An escrow that was opened over the relay is settled there at most once.
use agentbnb.Prelude.{
  ℕ, ◌+◌, ◌-◌, ◌≤◌, ◌≡◌, refl, ap, ◌∙◌, Bool, true, false, ◌&&◌, Bool-cases, inl, inr, String,
  Option, none, some, List, [], ◌∷◌, if◌then◌else◌, arith,
}
use agentbnb.Credit.Types.{StoredStatus, lifecycle, settled, released, is_finalizable}
use agentbnb.Credit.Table.{select_first, count, column-inverse}
use agentbnb.Credit.Db.{Db, EscrowRow, escrow_at}
use agentbnb.Credit.Supply.{HasKeys, terms, terms_of}
use agentbnb.Credit.Run.{Does, Does_bind}
use agentbnb.Credit.Owner.Canonical.{IsCanonical}
use agentbnb.Credit.Owner.Conserved.{canonicalize_credit_owner-Keeps}
use agentbnb.Credit.Ledger.{get_balance, get_balance_snapshot}
use agentbnb.Credit.Escrow.{settle_escrow, release_escrow, fee_amount}
use agentbnb.Credit.Escrow.Settlement.{settle_escrow_conserves}
use agentbnb.Credit.Escrow.Refund.{release_escrow_refunds}
use agentbnb.Relay.Escrow.{
  EscrowSettleResult, SignData, settle_data, Signature, answer, failed, not_found_or_settled,
  RelayError, invalid_signature, open_at, settle_open, settle_found, is_refused,
  process_escrow_settle,
}

module _ {R : Type 0} (p q : R → Bool) where
  none_of_count : (rows : List R) → count p rows ≤ 0 → select_first (λ r. p r && q r) rows ≡ none
  unfolding count select_first
  none_of_count [] h = refl
  none_of_count (r ∷ rs) h = ground (arith, none_of_count rs, h)

  first_passes :
      (rows : List R) (r : R)
      → select_first p rows ≡ some r
      → q r ≡ true
      → select_first (λ x. p x && q x) rows ≡ some r
  unfolding select_first
  first_passes [] r e f = ground (arith, e)
  first_passes (x ∷ xs) r e f = elim (Bool-cases (p x)) [
    | inl b ↦ ground (arith, b, e, f)
    | inr b ↦ ground (arith, b, e, f, first_passes xs r)
  ]

  -- A row that is alone in one test and fails another passes no row for both.
  alone_fails :
      (rows : List R) (r : R)
      → count p rows ≤ 1
      → select_first p rows ≡ some r
      → q r ≡ false
      → select_first (λ x. p x && q x) rows ≡ none
  unfolding count select_first
  alone_fails [] r h e f = refl
  alone_fails (x ∷ xs) r h e f = elim (Bool-cases (p x)) [
    | inl b ↦ ground (arith, b, e, f, h, none_of_count xs)
    | inr b ↦ ground (arith, b, alone_fails xs r, e, f, h)
  ]

-- What is left once the escrow is finished.
abbrev pub IsFinished : String → Db → Type 0
IsFinished id db =
    HasKeys db
    × ((amount : ℕ) × (s : StoredStatus) × (is_finalizable s ≡ false)
        × (terms id db ≡ some (amount, s)))

get_balance-IsFinished :
    (id o : String) (now : ℕ) (db : Db)
    → IsFinished id db
    → Does (get_balance o now) db (λ n d. IsFinished id d)
unfolding get_balance get_balance_snapshot
get_balance-IsFinished id o now db (keys, (amount, s, closed, t)) =
    let moved = canonicalize_credit_owner-Keeps o now db keys in
    record {
      value = _;
      after = _;
      runs = refl;
      holds = (moved.keys, (amount, s, closed, moved.same_terms id ∙ t));
    }

finished-none :
    (id : String) (db : Db) → IsFinished id db → select_first (open_at id) db.escrows ≡ none
finished-none id db (keys, (amount, s, closed, t)) =
    let (e, found, same) = column-inverse terms_of _ (amount, s) t in
    alone_fails (escrow_at id) (λ r. is_finalizable r.status) db.escrows e (keys.escrows id) found
      (ap is_finalizable (ap (λ q. q.1) same) ∙ closed)

-- The amounts of the answer add up to what was held, or to nothing after a failure.
abbrev pub AddsUp : Bool → ℕ → EscrowSettleResult → Type 0
AddsUp success amount r = r.provider_earned + r.network_fee ≡ (if success then amount else 0)

fee_within : (n : ℕ) → n - fee_amount n + fee_amount n ≡ n
unfolding fee_amount
fee_within n = omega arith

module _ (id provider : String) (now : ℕ) (db : Db) (e : EscrowRow) (keys : HasKeys db)
    (canonical : IsCanonical provider db.agents)
    (found : select_first (escrow_at id) db.escrows ≡ some e)
    (can : is_finalizable e.status ≡ true) where
  settled-IsFinished : Does (settle_escrow id provider now) db (λ _ d. IsFinished id d)
  unfolding is_finalizable
  settled-IsFinished =
      let s = settle_escrow_conserves id provider now db e keys canonical found can in
      record {
        value = tt;
        after = (settle_escrow id provider now db).1;
        runs = ap (λ r. (r, (settle_escrow id provider now db).1)) s.0;
        holds = (s.1, (e.amount, lifecycle settled, refl, s.2));
      }

  released-IsFinished : Does (release_escrow id now) db (λ _ d. IsFinished id d)
  unfolding is_finalizable
  released-IsFinished =
      let s = release_escrow_refunds id now db e keys found can in
      record {
        value = tt;
        after = (release_escrow id now db).1;
        runs = ap (λ r. (r, (release_escrow id now db).1)) s.0;
        holds = (s.1, (e.amount, lifecycle released, refl, s.2));
      }

  settle_open-IsFinished :
      (success : Bool)
      → Does
          (settle_open id success provider e now)
          db
          (λ r d. AddsUp success e.amount r × IsFinished id d)
  unfolding settle_open
  settle_open-IsFinished true = Does_bind _ _ db settled-IsFinished (λ _ d f.
      Does_bind _ _ d (get_balance-IsFinished id e.owner now d f) (λ c d' f'.
        Does_bind _ _ d' (get_balance-IsFinished id provider now d' f') (λ p d'' f''. record {
          value = _;
          after = d'';
          runs = refl;
          holds = (fee_within e.amount, f'');
        })))
  settle_open-IsFinished false = Does_bind _ _ db released-IsFinished (λ _ d f.
      Does_bind _ _ d (get_balance-IsFinished id e.owner now d f) (λ c d' f'.
        Does_bind _ _ d' (get_balance-IsFinished id provider now d' f')
          (λ p d'' f''. record { value = _; after = d''; runs = refl; holds = (refl, f'') })))

module _ (verify : SignData → Signature → Bool) where
  settle-refused :
      (id : String) (success : Bool) (provider : String) (signed : Option Signature)
      (consumer : String) (now : ℕ) (db : Db)
      → IsFinished id db
      → (error : RelayError) × (process_escrow_settle verify id success provider signed consumer now
            db
          ≡ (failed error, db))
  unfolding process_escrow_settle settle_found
  settle-refused id success provider signed consumer now db finished =
      elim (Bool-cases (is_refused verify (settle_data id success consumer) signed)) [
        | inl b ↦ (invalid_signature, rw b refl)
        | inr b ↦ (not_found_or_settled id, rw (b, finished-none id db finished) refl)
      ]

  -- With unique keys, a settlement over the relay of an open escrow, reported as a success to a
  -- provider whose identity is canonical or as a failure, unsigned or rightly signed, is answered with
  -- amounts that add up to the held amount after a success and to nothing after a failure; and a
  -- later settlement of the escrow, with whatever report, provider, signature and time, is refused and
  -- changes nothing.
  pub process_escrow_settle_once :
      (id : String) (success : Bool) (provider : String) (signed : Option Signature)
      (consumer : String) (now : ℕ) (db : Db) (e : EscrowRow) (success' : Bool) (provider' : String)
      (signed' : Option Signature) (consumer' : String) (now' : ℕ)
      → HasKeys db
      → IsCanonical provider db.agents
      → select_first (escrow_at id) db.escrows ≡ some e
      → is_finalizable e.status ≡ true
      → is_refused verify (settle_data id success consumer) signed ≡ false
      → (let (a, after) = process_escrow_settle verify id success provider signed consumer now db in
          ((r : EscrowSettleResult) × (a ≡ answer r) × AddsUp success e.amount r)
          × ((error : RelayError) × (process_escrow_settle verify id success' provider' signed'
                  consumer' now' after
                ≡ (failed error, after))))
  unfolding process_escrow_settle settle_found
  process_escrow_settle_once id success provider signed consumer now db e success' provider' signed'
        consumer' now' keys canonical found can accepted =
      let row = first_passes (escrow_at id) (λ r. is_finalizable r.status) db.escrows e found can in
      let d = settle_open-IsFinished id provider now db e keys canonical found can success in
      rw (accepted, row, d.runs)
        (
          (d.value, refl, d.holds.0),
          settle-refused id success' provider' signed' consumer' now' d.after d.holds.1,
        )
