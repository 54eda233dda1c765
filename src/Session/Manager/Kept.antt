-- ===== src/Session/Manager/Kept.antt =====
-- Every operation of the manager keeps the accounts of the sessions.
use agentbnb.Prelude.{
  ℕ, ◌≡◌, refl, ap, ◌∙◌, Bool-cases, inl, inr, String, Option, none, some, List, [], ◌∷◌, get,
}
use agentbnb.Session.Types.{
  Session, Sender, SessionConfig, SessionEndReason, World, Outcome, done, thrown, error, timeout,
  is_live, accepts_messages, continue_with,
}
use agentbnb.Session.Manager.{
  Step, route_message, route_to, end_session, end_if_live, idle_timeout, end_if_active, end_each,
  handle_disconnect, or_new_set,
}
use agentbnb.Session.Manager.Ending.{Accounts, end_session_internal-Accounts}
use agentbnb.Session.Manager.Charging.{live_of_active, accept_message-Accounts}

module _ (w : World) (before : Accounts w) (id : String) (now : ℕ) where
  -- The session that the map holds under the id is stored under its own.
  own_key : (s : Session) → get id w.sessions ≡ some s → get s.id w.sessions ≡ some s
  own_key s h = ap (λ k. get k w.sessions) (before.keyed id s h) ∙ h

  route_to-Accounts :
      (config : SessionConfig) (sender : Sender) (content key : String) (o : Option Session)
      → get id w.sessions ≡ o
      → Accounts (route_to config id sender content key now o w).1
  unfolding route_to
  route_to-Accounts config sender content key none h = before
  route_to-Accounts config sender content key (some s) h =
      elim (Bool-cases (accepts_messages s.status)) [
        | inl e ↦ rw e (
            accept_message-Accounts s w before (own_key s h) (live_of_active s.status e) config
              sender content now)
        | inr e ↦ rw e before
      ]

  pub route_message-Accounts :
      (config : SessionConfig) (sender : Sender) (content key : String)
      → Accounts (route_message config id sender content key now w).1
  unfolding route_message
  route_message-Accounts config sender content key =
      route_to-Accounts config sender content key (get id w.sessions) refl

  end_if_live-Accounts :
      (reason : SessionEndReason) (o : Option Session)
      → get id w.sessions ≡ o
      → Accounts (end_if_live reason now o w).1
  unfolding end_if_live
  end_if_live-Accounts reason none h = before
  end_if_live-Accounts reason (some s) h = elim (Bool-cases (is_live s.status)) [
    | inl e ↦ rw e (end_session_internal-Accounts s reason now w before (own_key s h) e)
    | inr e ↦ rw e before
  ]

  pub end_session-Accounts : (reason : SessionEndReason) → Accounts (end_session id reason now w).1
  unfolding end_session
  end_session-Accounts reason = end_if_live-Accounts reason (get id w.sessions) refl

  end_if_active-Accounts :
      (o : Option Session) → get id w.sessions ≡ o → Accounts (end_if_active now o w).1
  unfolding end_if_active
  end_if_active-Accounts none h = before
  end_if_active-Accounts (some s) h = elim (Bool-cases (accepts_messages s.status)) [
    | inl e ↦ rw e (
        end_session_internal-Accounts s timeout now w before (own_key s h)
          (live_of_active s.status e))
    | inr e ↦ rw e before
  ]

  pub idle_timeout-Accounts : Accounts (idle_timeout id now w).1
  unfolding idle_timeout
  idle_timeout-Accounts = end_if_active-Accounts (get id w.sessions) refl

-- A task and then another, when both keep the accounts.
then-Accounts :
    (r : Outcome (Unit {0}) × World) (k : Step)
    → Accounts r.1
    → ((w : World) → Accounts w → Accounts (k w).1)
    → Accounts (continue_with (λ _. k) r).1
then-Accounts (done tt, w) k a h = h w a
then-Accounts (thrown e, w) k a h = a

end_each-Accounts :
    (ids : List String) (now : ℕ) (w : World) → Accounts w → Accounts (end_each ids now w).1
unfolding end_each
end_each-Accounts [] now w a = a
end_each-Accounts (id ∷ ids) now w a =
    then-Accounts (end_session id error now w) (end_each ids now)
      (end_session-Accounts w a id now error) (end_each-Accounts ids now)

pub handle_disconnect-Accounts :
    (key : String) (now : ℕ) (w : World) → Accounts w → Accounts (handle_disconnect key now w).1
unfolding handle_disconnect
handle_disconnect-Accounts key now w a =
    end_each-Accounts (or_new_set (get key w.agent_sessions)) now w a
