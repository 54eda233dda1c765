-- ===== src/Session/Manager/Charging.antt =====
-- A message that is charged keeps the accounts: the session and the tracking of its escrow grow alike.
use agentbnb.Prelude.{
  ℕ, ◌+◌, ◌≡◌, refl, true, ◌&&◌, Bool-cases, inl, inr, String, some, get, put, get-put, put-put,
  str_eq_iff, leb, leb_ℤ, pos, length, if◌then◌else◌, arith,
}
use agentbnb.Session.Types.{
  Session, Sender, SessionConfig, Tracking, World, Outcome, done, is_live, accepts_messages,
  SessionStatus, budget_exhausted, opened, active, closing, settled, closed,
}
use agentbnb.Session.Escrow.{deduct, remaining_of}
use agentbnb.Session.Manager.{
  store, forward, with_message, reset_idle_timer, charge_message, accept_message, is_per_message,
  is_provider, end_session_internal,
}
use agentbnb.Session.Manager.Accounts.{account_of, store-Accounted}
use agentbnb.Session.Manager.Ending.{Accounts, end_session_internal-Accounts}

pub live_of_active : (s : SessionStatus) → accepts_messages s ≡ true → is_live s ≡ true
unfolding is_live accepts_messages
live_of_active opened h = refl
live_of_active active h = refl
live_of_active closing h = refl
live_of_active settled h = h
live_of_active closed h = h

abbrev pub spending : Session → ℕ → Session
spending s rate = record s { spent = s.spent + rate }

pub deduct-known :
    (escrow_id : String) (amount : ℕ) (t : Tracking) (w : World)
    → get escrow_id w.tracking ≡ some t
    → deduct escrow_id amount w ≡ (
        let u = record t { spent = t.spent + amount } in
        (done u, record w { tracking = put escrow_id u w.tracking }))
unfolding deduct
deduct-known escrow_id amount t w h = rw (h, deduct)

module _ (s : Session) (w : World) (before : Accounts w) (stored : get s.id w.sessions ≡ some s)
    (live : is_live s.status ≡ true) where
  alone :
      (j : String) (t : Session)
      → get j w.sessions ≡ some t
      → is_live t.status ≡ true
      → t.escrow_id ≡ s.escrow_id
      → j ≡ s.id
  alone j t h l e = before.apart j s.id t s h stored l live e

  forward-Accounts : (sender : Sender) (content : String) → Accounts (forward s sender content w).1
  unfolding forward store
  forward-Accounts sender content =
      store-Accounted w.sessions w.tracking w.tracking (with_message s sender content) before alone
        (λ e h. refl) (λ l. before.tracked s.id s stored live)

  module _ (rate : ℕ) (sender : Sender) (content : String) where
    abbrev spent_session : Session
    spent_session = with_message (spending s rate) sender content

    abbrev tracked_world : World
    tracked_world = record w {
      tracking = put s.escrow_id (account_of (spending s rate)) w.tracking;
    }

    abbrev charged_world : World
    charged_world =
        (forward (spending s rate) sender content (store (spending s rate) tracked_world).1).1

    charged-Accounts : Accounts charged_world
    unfolding forward store
    charged-Accounts = rw put-put (
        store-Accounted w.sessions w.tracking
          (put s.escrow_id (account_of (spending s rate)) w.tracking) spent_session before alone
          (λ e h. ground (
            arith,
            h,
            get-put e s.escrow_id (account_of (spending s rate)) w.tracking,
            str_eq_iff e s.escrow_id,
            str_eq_iff s.escrow_id e,
          ))
          (λ l. ground (
            arith,
            str_eq_iff s.escrow_id s.escrow_id,
            get-put s.escrow_id s.escrow_id (account_of (spending s rate)) w.tracking,
          )))

    charged-stored : get s.id charged_world.sessions ≡ some spent_session
    unfolding forward store
    charged-stored = ground (
      arith,
      str_eq_iff s.id s.id,
      get-put s.id s.id spent_session (put s.id (spending s rate) w.sessions),
    )

  module _ (config : SessionConfig) (sender : Sender) (content : String) (now : ℕ) where
    abbrev rate : ℕ
    rate = config.per_message_base_rate

    abbrev last_step : Tracking → Outcome (Unit {0}) × World
    last_step t =
        (if leb_ℤ (remaining_of t) (pos 0)
            then end_session_internal (spent_session rate sender content) budget_exhausted now
            else reset_idle_timer s.id)
          (charged_world rate sender content)

    last_step-Accounts : (t : Tracking) → Accounts (last_step t).1
    unfolding reset_idle_timer
    last_step-Accounts t =
        let kept = charged-Accounts rate sender content in
        elim (Bool-cases (leb_ℤ (remaining_of t) (pos 0))) [
          | inl e ↦ rw e (
              end_session_internal-Accounts (spent_session rate sender content) budget_exhausted now
                (charged_world rate sender content) kept (charged-stored rate sender content) live)
          | inr e ↦ rw e kept
        ]

    charge_message-Accounts : Accounts (charge_message config s sender content now w).1
    unfolding charge_message forward store
    charge_message-Accounts =
        rw (deduct-known s.escrow_id rate (account_of s) w (before.tracked s.id s stored live))
          (last_step-Accounts (account_of (spending s rate)))

    pub accept_message-Accounts : Accounts (accept_message config s sender content now w).1
    unfolding accept_message reset_idle_timer
    accept_message-Accounts =
        elim (Bool-cases (leb config.max_messages_per_session (length s.messages))) [
          | inl e ↦ rw e (end_session_internal-Accounts s budget_exhausted now w before stored live)
          | inr e ↦ elim (Bool-cases (is_per_message s.pricing_model && is_provider sender)) [
            | inl f ↦ rw (e, f) charge_message-Accounts
            | inr f ↦ rw (e, f) (forward-Accounts sender content)
          ]
        ]
