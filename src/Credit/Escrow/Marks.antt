-- ===== src/Credit/Escrow/Marks.antt =====
-- `markEscrowStarted`, `markEscrowProgressing` and `markEscrowAbandoned` (src/credit/escrow.ts) against a
-- table of the moves that the lifecycle allows.
use agentbnb.Prelude.{
  ℕ, ◌≡◌, refl, sym, ap, ◌∙◌, ◌⊎◌, inl, inr, Bool, true, false, String, List, [], ◌∷◌, Option, none,
  some, arith, any, Bool-cases, subst,
}
use agentbnb.Credit.Types.{
  EscrowStatus, StoredStatus, held, started, progressing, abandoned, lifecycle, is_finalizable,
  is_terminal, escrow_invalid_transition,
}
use agentbnb.Credit.Table.{select_first, column, sum_of-update_found, column-inverse}
use agentbnb.Credit.Db.{Db, EscrowRow, Action, ok, err, escrow_at}
use agentbnb.Credit.Supply.{
  supply, HasKeys, terms, terms_of, in_escrow, open_amount, IsKeyedEscrow, count_one,
}
use agentbnb.Credit.Run.{Does}
use agentbnb.Credit.Owner.Conserved.{canonicalize_credit_owner-Keeps}
use agentbnb.Credit.Escrow.{
  same_status, set_status, update_escrow_status, mark_escrow_started, mark_escrow_progressing,
  mark_escrow_abandoned,
}
use agentbnb.Credit.Escrow.Close.{readied, closed, readied-terms, terms-closed, closed-IsKeyed}
use agentbnb.Credit.Escrow.Lifecycle.{
  Step, starts, progresses, progresses_on, abandons_started, abandons,
}

same_status_eq : (s t : EscrowStatus) → same_status s t ≡ true → s ≡ t
same_status_eq s t h = ground arith

module _ (id : String) (s : EscrowStatus) (at : Option ℕ) (rows : List EscrowRow) (amount : ℕ)
    (from : StoredStatus) (keyed : IsKeyedEscrow rows)
    (found : column terms_of (select_first (escrow_at id) rows) ≡ some (amount, from)) where
  -- Between two open statuses the amount stays in escrow.
  in_escrow-moved :
      is_finalizable from ≡ true
      → is_finalizable (lifecycle s) ≡ true
      → in_escrow (closed id s at rows) ≡ in_escrow rows
  in_escrow-moved was now_open =
      let (r, e, t) =
        column-inverse terms_of (select_first (escrow_at id) rows) (amount, from) found in
      let its_status : r.status ≡ from = ap (λ q. q.1) t in
      ground (
        arith,
        sum_of-update_found (escrow_at id) (λ q. record q { status = lifecycle s; settled_at = at })
            open_amount rows r e (count_one (escrow_at id) rows (keyed id) e),
      )

-- What a move leaves: the escrow in this status, with its amount, and the same supply.
record Moves (id : String) (amount : ℕ) (status : EscrowStatus) (before after : Db) : Type 0 where
  keys : HasKeys after
  has_terms : terms id after ≡ some (amount, lifecycle status)
  same_supply : supply after ≡ supply before

module _ (id : String) (now : ℕ) (db : Db) (e : EscrowRow) (s : EscrowStatus) (keys : HasKeys db)
    (found : select_first (escrow_at id) db.escrows ≡ some e)
    (current : e.status ≡ lifecycle s) where
  stays : Moves id e.amount s db (readied e now db)
  stays =
      let ready = canonicalize_credit_owner-Keeps e.owner now db keys in
      record {
        keys = ready.keys;
        has_terms = readied-terms id now db e keys found ∙ ap (λ x. some (e.amount, x)) current;
        same_supply = ready.same_supply;
      }

  goes :
      (to : EscrowStatus) (at : Option ℕ)
      → is_finalizable (lifecycle s) ≡ true
      → is_finalizable (lifecycle to) ≡ true
      → Moves id e.amount to db (set_status id to at (readied e now db)).1
  goes to at was now_open =
      let rows = (readied e now db).escrows in
      record {
        keys = record {
          balances = stays.keys.balances;
          escrows =
              closed-IsKeyed id to at rows e.amount (lifecycle s) stays.keys.escrows
                stays.has_terms;
          vouchers = stays.keys.vouchers;
        };
        has_terms =
            terms-closed id to at rows e.amount (lifecycle s) stays.keys.escrows stays.has_terms;
        same_supply = omega (
          arith,
          stays.same_supply,
          in_escrow-moved id to at rows e.amount (lifecycle s) stays.keys.escrows stays.has_terms
              was now_open,
        );
      }

  update_escrow_status-Moves :
      (from : List EscrowStatus) (to : EscrowStatus)
      → any (same_status s) from ≡ true
      → is_finalizable (lifecycle s) ≡ true
      → is_finalizable (lifecycle to) ≡ true
      → is_terminal (lifecycle to) ≡ false
      → Does (update_escrow_status id from to now) db (λ _. Moves id e.amount to db)
  unfolding update_escrow_status
  update_escrow_status-Moves from to allowed was now_open lasting =
      elim (Bool-cases (same_status s to)) [
        | inl same ↦ record {
          value = tt;
          after = readied e now db;
          runs = ground arith;
          holds =
              subst (λ x. Moves id e.amount x db (readied e now db)) (same_status_eq s to same)
                stays;
        }
        | inr differs ↦ record {
          value = tt;
          after = (set_status id to none (readied e now db)).1;
          runs = ground arith;
          holds = goes to none was now_open;
        }
      ]

  update_escrow_status_refuses :
      (from : List EscrowStatus) (to : EscrowStatus)
      → any (same_status s) from ≡ false
      → update_escrow_status id from to now db ≡ (err escrow_invalid_transition, db)
  unfolding update_escrow_status
  update_escrow_status_refuses from to refused = ground arith

-- The three marks, the status that each aims at, and the statuses from which it may.
pub data Mark : Type 0 where
  start progress abandon : Mark

abbrev pub run_mark : Mark → String → ℕ → Action (Unit {0})
run_mark start = mark_escrow_started
run_mark progress = mark_escrow_progressing
run_mark abandon = mark_escrow_abandoned

abbrev pub aim : Mark → EscrowStatus
aim start = started
aim progress = progressing
aim abandon = abandoned

abbrev pub may : Mark → EscrowStatus → Bool
may start held = true
may start started = true
may progress held = true
may progress started = true
may progress progressing = true
may abandon started = true
may abandon progressing = true
may abandon abandoned = true
may _ _ = false

-- A mark that may run stays where it is or takes one step of the lifecycle.
may-Step : (m : Mark) (s : EscrowStatus) → may m s ≡ true → (s ≡ aim m) ⊎ Step s (aim m)
may-Step start held h = inr starts
may-Step start started h = inl refl
may-Step progress held h = inr progresses
may-Step progress started h = inr progresses_on
may-Step progress progressing h = inl refl
may-Step abandon started h = inr abandons_started
may-Step abandon progressing h = inr abandons
may-Step abandon abandoned h = inl refl
may-Step m s h = absurd (ground arith)

abbrev sources : Mark → List EscrowStatus
sources start = held ∷ started ∷ []
sources progress = held ∷ started ∷ progressing ∷ []
sources abandon = started ∷ progressing ∷ abandoned ∷ []

run_mark-update_escrow_status :
    (m : Mark) (id : String) (now : ℕ)
    → run_mark m id now ≡ update_escrow_status id (sources m) (aim m) now
unfolding mark_escrow_started mark_escrow_progressing mark_escrow_abandoned
run_mark-update_escrow_status start id now = refl
run_mark-update_escrow_status progress id now = refl
run_mark-update_escrow_status abandon id now = refl

any-sources : (m : Mark) (s : EscrowStatus) → any (same_status s) (sources m) ≡ may m s
any-sources m s = ground arith

sources-IsFinalizable :
    (m : Mark) (s : EscrowStatus) → may m s ≡ true → is_finalizable (lifecycle s) ≡ true
unfolding is_finalizable
sources-IsFinalizable m s h = ground arith

aim-lasting :
    (m : Mark)
    → (is_finalizable (lifecycle (aim m)) ≡ true) × (is_terminal (lifecycle (aim m)) ≡ false)
unfolding is_finalizable is_terminal
aim-lasting start = (refl, refl)
aim-lasting progress = (refl, refl)
aim-lasting abandon = (refl, refl)

module _ (m : Mark) (id : String) (now : ℕ) (db : Db) (e : EscrowRow) (s : EscrowStatus)
    (keys : HasKeys db) (found : select_first (escrow_at id) db.escrows ≡ some e)
    (current : e.status ≡ lifecycle s) where
  run_mark-Moves : may m s ≡ true → Does (run_mark m id now) db (λ _. Moves id e.amount (aim m) db)
  run_mark-Moves h =
      subst (λ f. Does f db (λ _. Moves id e.amount (aim m) db))
        (sym (run_mark-update_escrow_status m id now))
        (update_escrow_status-Moves id now db e s keys found current (sources m) (aim m)
          (any-sources m s ∙ h) (sources-IsFinalizable m s h) (aim-lasting m).0 (aim-lasting m).1)

  pub run_mark_refuses :
      may m s ≡ false → run_mark m id now db ≡ (err escrow_invalid_transition, db)
  run_mark_refuses h =
      ap (λ f. f db) (run_mark-update_escrow_status m id now)
      ∙ update_escrow_status_refuses id now db e s keys found current (sources m) (aim m)
          (any-sources m s ∙ h)

  -- Each of the three marks, with unique keys and on an escrow in a status of the lifecycle,
  -- keeps the keys and the supply; if the table of moves allows it, it succeeds and the escrow
  -- has the status aimed at, which is the one it had or one step further, with the same amount;
  -- if not, it fails as an invalid transition and changes nothing.
  pub run_mark_steps :
      let (result, db') = run_mark m id now db in
      HasKeys db'
      × (supply db' ≡ supply db)
      × (((may m s ≡ true)
            × (result ≡ ok tt)
            × (terms id db' ≡ some (e.amount, lifecycle (aim m)))
            × ((s ≡ aim m) ⊎ Step s (aim m)))
          ⊎ ((may m s ≡ false) × (result ≡ err escrow_invalid_transition) × (db' ≡ db)))
  run_mark_steps = elim (Bool-cases (may m s)) [
    | inl h ↦
        let done = run_mark-Moves h in
        rw done.runs (
          done.holds.keys,
          done.holds.same_supply,
          inl (h, refl, done.holds.has_terms, may-Step m s h),
        )
    | inr h ↦ rw (run_mark_refuses h) (keys, refl, inr (h, refl, refl))
  ]
