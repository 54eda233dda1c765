-- ===== src/Session/Manager/Accounts.antt =====
-- The accounts of the sessions: what a live session has spent of its budget is what its escrow tracks,
-- and no two live sessions share an escrow.
use agentbnb.Prelude.{
  ◌≡◌, sym, ap, ◌∙◌, true, false, Bool-cases, inl, inr, String, ◌⊎◌, subst, some, Dict, get, put,
  get-put, str_eq, str_eq_iff, arith,
}
use agentbnb.Session.Types.{Session, Tracking, is_live}

abbrev pub account_of : Session → Tracking
account_of s = record { budget = s.budget; spent = s.spent }

pub record Accounted (ss : Dict Session) (ts : Dict Tracking) : Type 0 where
  pub keyed : (id : String) (s : Session) → get id ss ≡ some s → s.id ≡ id
  pub tracked :
      (id : String) (s : Session)
      → get id ss ≡ some s
      → is_live s.status ≡ true
      → get s.escrow_id ts ≡ some (account_of s)
  pub apart :
      (i j : String) (s t : Session)
      → get i ss ≡ some s
      → get j ss ≡ some t
      → is_live s.status ≡ true
      → is_live t.status ≡ true
      → s.escrow_id ≡ t.escrow_id
      → i ≡ j

-- A session is stored whose escrow no other live session has, and only its escrow is tracked anew.
module _ (ss : Dict Session) (ts ts' : Dict Tracking) (s : Session) (before : Accounted ss ts)
    (alone : (j : String) (t : Session)
      → get j ss ≡ some t
      → is_live t.status ≡ true
      → t.escrow_id ≡ s.escrow_id
      → j ≡ s.id)
    (others : (e : String) → str_eq e s.escrow_id ≡ false → get e ts' ≡ get e ts)
    (own : is_live s.status ≡ true → get s.escrow_id ts' ≡ some (account_of s)) where
  stored :
      (id : String) (t : Session)
      → get id (put s.id s ss) ≡ some t
      → ((s.id ≡ id) × (s ≡ t)) ⊎ ((str_eq s.id id ≡ false) × (get id ss ≡ some t))
  stored id t h = elim (Bool-cases (str_eq s.id id)) [
    | inl e ↦ inl ((str_eq_iff s.id id).0 e, ground (arith, h, e, get-put id s.id s ss))
    | inr e ↦ inr (e, ground (arith, h, e, get-put id s.id s ss))
  ]

  stored-tracked :
      (id : String) (t : Session)
      → get id (put s.id s ss) ≡ some t
      → is_live t.status ≡ true
      → get t.escrow_id ts' ≡ some (account_of t)
  stored-tracked id t h live = elim (stored id t h) [
    | inl (p, q) ↦
        subst (λ u. is_live u.status ≡ true → get u.escrow_id ts' ≡ some (account_of u)) q own live
    | inr (p, q) ↦ elim (Bool-cases (str_eq t.escrow_id s.escrow_id)) [
      | inl e ↦ absurd (
          ground (
            arith,
            p,
            str_eq_iff s.id id,
            alone id t q live ((str_eq_iff t.escrow_id s.escrow_id).0 e),
          ))
      | inr e ↦ others t.escrow_id e ∙ before.tracked id t q live
    ]
  ]

  stored-apart :
      (i j : String) (t u : Session)
      → get i (put s.id s ss) ≡ some t
      → get j (put s.id s ss) ≡ some u
      → is_live t.status ≡ true
      → is_live u.status ≡ true
      → t.escrow_id ≡ u.escrow_id
      → i ≡ j
  stored-apart i j t u h k lt lu e = elim (stored i t h) [
    | inl (p, q) ↦ elim (stored j u k) [
      | inl (p', q') ↦ sym p ∙ p'
      | inr (p', q') ↦ sym p ∙ sym (alone j u q' lu (sym e ∙ ap (λ v. v.escrow_id) (sym q)))
    ]
    | inr (p, q) ↦ elim (stored j u k) [
      | inl (p', q') ↦ alone i t q lt (e ∙ ap (λ v. v.escrow_id) (sym q')) ∙ p'
      | inr (p', q') ↦ before.apart i j t u q q' lt lu e
    ]
  ]

  pub store-Accounted : Accounted (put s.id s ss) ts'
  store-Accounted = record {
    keyed = λ id t h. elim (stored id t h) [
      | inl (p, q) ↦ ap (λ v. v.id) (sym q) ∙ p
      | inr (p, q) ↦ before.keyed id t q
    ];
    tracked = stored-tracked;
    apart = stored-apart;
  }
