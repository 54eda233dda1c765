-- ===== src/Identity/Guarantors/Counts.antt =====
-- The counters of the guarantors (src/identity/guarantor.ts).
use agentbnb.Prelude.{
  ℕ, ◌+◌, ◌≤◌, ◌<◌, ◌≡◌, refl, sym, ap, inl, inr, Bool, false, String, List, [], ◌∷◌, none, some,
  arith, leb, str_eq, str_eq_iff, All, Bool-cases, Option-cases,
}
use agentbnb.Credit.Table.{
  select_first, count, update_where, insert, count-insert, select_first-none, count-update_where,
}
use agentbnb.Credit.Rows.{All-insert, All-select_first}
use agentbnb.Identity.Guarantors.{
  GuarantorRecord, AgentGuarantor, Tables, empty_tables, login_is, id_is, agent_is, new_guarantor,
  add_link, insert_guarantor, register_guarantor, link_agent_to_guarantor, max_agents_per_guarantor,
}

abbrev pub linked_to : String → AgentGuarantor → Bool
linked_to guarantor_id l = str_eq l.guarantor_id guarantor_id

-- The counter is the number of the links, at most ten.
abbrev pub IsCounted : List AgentGuarantor → GuarantorRecord → Type 0
IsCounted links g =
    (g.agent_count ≡ count (linked_to g.id) links) × (g.agent_count ≤ max_agents_per_guarantor)

pub record IsConsistent (t : Tables) : Type 0 where
  pub unique_ids : (id : String) → count (id_is id) t.guarantors ≤ 1
  pub unique_logins : (login : String) → count (login_is login) t.guarantors ≤ 1
  pub linked_once : (agent_id : String) → count (agent_is agent_id) t.agent_guarantors ≤ 1
  pub counted : All (IsCounted t.agent_guarantors) t.guarantors
  pub known :
      (id : String)
      → count (id_is id) t.guarantors ≡ 0
      → count (linked_to id) t.agent_guarantors ≡ 0

-- An operation on the tables, with its arguments.
pub data Command : Type 0 where
  register : String → String → Command
  link : String → String → Command

unfoldable pub run_commands : List (Command × ℕ) → Tables → Tables
run_commands [] t = t
run_commands ((register login id, now) ∷ cs) t =
    run_commands cs (register_guarantor login id now t).1
run_commands ((link agent_id login, now) ∷ cs) t =
    run_commands cs (link_agent_to_guarantor agent_id login now t).1

registered-IsConsistent :
    (login id : String) (now : ℕ) (t : Tables)
    → IsConsistent t
    → select_first (login_is login) t.guarantors ≡ none
    → select_first (id_is id) t.guarantors ≡ none
    → IsConsistent (record t { guarantors = insert (new_guarantor id login now) t.guarantors })
registered-IsConsistent login id now t h new_login new_id =
    let g = new_guarantor id login now in
    let unused = select_first-none (id_is id) t.guarantors new_id in
    record {
      unique_ids = λ i.
          ground
            (arith, h.unique_ids i, count-insert (id_is i) g t.guarantors, unused, str_eq_iff id i);
      unique_logins = λ l. ground (
        arith,
        h.unique_logins l,
        count-insert (login_is l) g t.guarantors,
        select_first-none (login_is login) t.guarantors new_login,
        str_eq_iff login l,
      );
      linked_once = h.linked_once;
      counted =
          All-insert (IsCounted t.agent_guarantors) g t.guarantors
            (sym (h.known id unused), omega arith) h.counted;
      known = λ i e. h.known i (ground (arith, e, count-insert (id_is i) g t.guarantors));
    }

abbrev bump : GuarantorRecord → GuarantorRecord
bump g = record g { agent_count = g.agent_count + 1 }

linked-counts :
    (l : AgentGuarantor) (links : List AgentGuarantor) (rows : List GuarantorRecord)
    → count (linked_to l.guarantor_id) links < max_agents_per_guarantor
    → All (IsCounted links) rows
    → All (IsCounted (insert l links)) (update_where (id_is l.guarantor_id) bump rows)
unfolding update_where
linked-counts l links [] room h = tt
linked-counts l links (g ∷ rows) room ((same, most), rest) =
    elim (Bool-cases (str_eq g.id l.guarantor_id)) [
      | inl e ↦ rw e (
        (
          ground (
            arith,
            same,
            count-insert (linked_to g.id) l links,
            str_eq_iff g.id l.guarantor_id,
            str_eq_iff l.guarantor_id g.id,
            e,
          ),
          ground (arith, same, room, str_eq_iff g.id l.guarantor_id, e),
        ),
        linked-counts l links rows room rest,
      )
      | inr e ↦ rw e (
        (
          ground (
            arith,
            same,
            count-insert (linked_to g.id) l links,
            str_eq_iff g.id l.guarantor_id,
            str_eq_iff l.guarantor_id g.id,
            e,
          ),
          most,
        ),
        linked-counts l links rows room rest,
      )
    ]

found_has_id :
    (p : GuarantorRecord → Bool) (rows : List GuarantorRecord) (g : GuarantorRecord)
    → select_first p rows ≡ some g
    → 1 ≤ count (id_is g.id) rows
unfolding select_first count
found_has_id p [] g e = cc
found_has_id p (x ∷ rows) g e = elim (Bool-cases (p x)) [
  | inl hit ↦
      let same : x ≡ g = ground (arith, e, hit) in
      ground (arith, ap (λ y. y.id) same, str_eq_iff x.id g.id)
  | inr miss ↦ ground (arith, found_has_id p rows g (ground (arith, e, miss)))
]

linked-IsConsistent :
    (agent_id login : String) (now : ℕ) (t : Tables) (g : GuarantorRecord)
    → IsConsistent t
    → select_first (login_is login) t.guarantors ≡ some g
    → leb max_agents_per_guarantor g.agent_count ≡ false
    → select_first (agent_is agent_id) t.agent_guarantors ≡ none
    → IsConsistent (add_link agent_id g.id now t)
linked-IsConsistent agent_id login now t g h found room new =
    let l : AgentGuarantor = record { agent_id = agent_id; guarantor_id = g.id; linked_at = now } in
    let g_counted =
      All-select_first (IsCounted t.agent_guarantors) (login_is login) t.guarantors g h.counted
        found in
    record {
      unique_ids = λ i. omega (
        arith,
        h.unique_ids i,
        count-update_where (id_is g.id) (id_is i) bump t.guarantors λ r e. refl,
      );
      unique_logins = λ i. omega (
        arith,
        h.unique_logins i,
        count-update_where (id_is g.id) (login_is i) bump t.guarantors λ r e. refl,
      );
      linked_once = λ a. ground (
        arith,
        h.linked_once a,
        count-insert (agent_is a) l t.agent_guarantors,
        select_first-none (agent_is agent_id) t.agent_guarantors new,
        str_eq_iff agent_id a,
      );
      counted =
          linked-counts l t.agent_guarantors t.guarantors (ground (arith, g_counted.0, room))
            h.counted;
      known = λ i e. ground (
        arith,
        e,
        h.known i,
        count-update_where (id_is g.id) (id_is i) bump t.guarantors λ r e. refl,
        count-insert (linked_to i) l t.agent_guarantors,
        found_has_id (login_is login) t.guarantors g found,
        str_eq_iff g.id i,
      );
    }

register-IsConsistent :
    (login id : String) (now : ℕ) (t : Tables)
    → IsConsistent t
    → IsConsistent (register_guarantor login id now t).1
unfolding register_guarantor
register-IsConsistent login id now t h =
    elim (Option-cases (select_first (login_is login) t.guarantors)) [
      | inr (g, e) ↦ rw (e, register_guarantor) h
      | inl e ↦ elim (Option-cases (select_first (id_is id) t.guarantors)) [
        | inr (g, f) ↦ rw (e, register_guarantor, f, insert_guarantor) h
        | inl f ↦
            rw (e, register_guarantor, f, insert_guarantor)
              (registered-IsConsistent login id now t h e f)
      ]
    ]

link-IsConsistent :
    (agent_id login : String) (now : ℕ) (t : Tables)
    → IsConsistent t
    → IsConsistent (link_agent_to_guarantor agent_id login now t).1
unfolding link_agent_to_guarantor
link-IsConsistent agent_id login now t h =
    elim (Option-cases (select_first (login_is login) t.guarantors)) [
      | inl e ↦ rw (e, link_agent_to_guarantor) h
      | inr (g, e) ↦ elim (Bool-cases (leb max_agents_per_guarantor g.agent_count)) [
        | inl full ↦ rw (e, full, link_agent_to_guarantor) h
        | inr room ↦ elim (Option-cases (select_first (agent_is agent_id) t.agent_guarantors)) [
          | inr (l, f) ↦ rw (e, room, f, link_agent_to_guarantor) h
          | inl f ↦
              rw (e, room, f, link_agent_to_guarantor)
                (linked-IsConsistent agent_id login now t g h e room f)
        ]
      ]
    ]

run-IsConsistent :
    (commands : List (Command × ℕ)) (t : Tables)
    → IsConsistent t
    → IsConsistent (run_commands commands t)
unfolding run_commands
run-IsConsistent [] t h = h
run-IsConsistent ((register login id, now) ∷ cs) t h =
    run-IsConsistent cs _ (register-IsConsistent login id now t h)
run-IsConsistent ((link agent_id login, now) ∷ cs) t h =
    run-IsConsistent cs _ (link-IsConsistent agent_id login now t h)

-- From empty tables, any sequence of registrations and links keeps them consistent: ids and logins
-- of guarantors are unique, no agent is linked twice, and the counter of each guarantor is the
-- number of the agents that are linked to it, at most ten.
pub run_commands-IsConsistent :
    (commands : List (Command × ℕ)) → IsConsistent (run_commands commands empty_tables)
unfolding count
run_commands-IsConsistent commands = run-IsConsistent commands empty_tables (record {
  unique_ids = λ i. omega arith;
  unique_logins = λ i. omega arith;
  linked_once = λ i. omega arith;
  counted = tt;
  known = λ i e. refl;
})
