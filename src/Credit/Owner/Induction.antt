-- ===== src/Credit/Owner/Induction.antt =====
-- What every move of rows keeps, the resolution of an owner keeps (src/credit/owner-normalization.ts).
use agentbnb.Prelude.{
  ℕ, inl, inr, ◌||◌, String, List, [], ◌∷◌, Option, none, some, str_eq, Bool-cases,
}
use agentbnb.Credit.Db.{Db, AgentRow, treasury}
use agentbnb.Credit.Owner.{
  move_rows, migrate_credit_owner_data, migrate_all, canonicalize_credit_owner, canonicalize_as,
  aliases, resolve_canonical_identity,
}

module _ (P : Db → Type 0) (now : ℕ)
    (moves : (old new : String) (db : Db) → P db → P (move_rows old new now db)) where
  pub migrate_credit_owner_data_induct :
      (old new : String) (db : Db) → P db → P (migrate_credit_owner_data old new now db)
  unfolding migrate_credit_owner_data
  migrate_credit_owner_data_induct old new db h =
      elim (Bool-cases (str_eq old "" || str_eq new "" || str_eq old new)) [
        | inl skip ↦ rw (skip, migrate_credit_owner_data) h
        | inr go ↦ rw (go, migrate_credit_owner_data) (moves old new db h)
      ]

  migrate_all_induct :
      (olds : List String) (new : String) (db : Db) → P db → P (migrate_all olds new now db)
  unfolding migrate_all
  migrate_all_induct [] new db h = h
  migrate_all_induct (a ∷ rest) new db h =
      migrate_all_induct rest new _ (migrate_credit_owner_data_induct a new db h)

  canonicalize_as_induct :
      (agent : Option AgentRow) (owner : String) (db : Db)
      → P db
      → P (canonicalize_as agent owner now db).1
  canonicalize_as_induct none owner db h = h
  canonicalize_as_induct (some a) owner db h = migrate_all_induct (aliases owner a) a.agent_id db h

  pub canonicalize_credit_owner_induct :
      (owner : String) (db : Db) → P db → P (canonicalize_credit_owner owner now db).1
  unfolding canonicalize_credit_owner
  canonicalize_credit_owner_induct owner db h =
      elim (Bool-cases (str_eq owner "" || str_eq owner treasury)) [
        | inl reserved ↦ rw (reserved, canonicalize_credit_owner) h
        | inr other ↦
            rw (other, canonicalize_credit_owner)
              (canonicalize_as_induct (resolve_canonical_identity owner db.agents) owner db h)
      ]
