-- ===== src/Credit/Escrow/Ended.antt =====
-- An escrow that is still open can be ended either way (src/credit/escrow.ts).
use agentbnb.Prelude.{ℕ, ◌≡◌, refl, ap, ◌∙◌, true, String, some}
use agentbnb.Credit.Types.{StoredStatus, held, settled, released, lifecycle, is_finalizable}
use agentbnb.Credit.Table.{column-inverse}
use agentbnb.Credit.Db.{Db}
use agentbnb.Credit.Supply.{HasKeys, terms, terms_of}
use agentbnb.Credit.Run.{Does}
use agentbnb.Credit.Owner.Canonical.{IsCanonical}
use agentbnb.Credit.Escrow.{settle_escrow, release_escrow}
use agentbnb.Credit.Escrow.Settlement.{settle_escrow_conserves}
use agentbnb.Credit.Escrow.Refund.{release_escrow_refunds}

module _ (id : String) (amount now : ℕ) (db : Db) (keys : HasKeys db) (status : StoredStatus)
    (finalizable : is_finalizable status ≡ true)
    (open_terms : terms id db ≡ some (amount, status)) where
  pub release_ends :
      Does
        (release_escrow id now)
        db
        (λ _ after. HasKeys after × (terms id after ≡ some (amount, lifecycle released)))
  release_ends =
      let (e, found, same) = column-inverse terms_of _ _ open_terms in
      let can : is_finalizable e.status ≡ true = ap (λ q. is_finalizable q.1) same ∙ finalizable in
      let (runs, kept, ended, moved) = release_escrow_refunds id now db e keys found can in
      record {
        value = tt;
        after = (release_escrow id now db).1;
        runs = ap (λ r. (r, (release_escrow id now db).1)) runs;
        holds = (kept, ended ∙ ap (λ q. some (q.0, lifecycle released)) same);
      }

  pub settle_ends :
      (peer : String)
      → IsCanonical peer db.agents
      → Does
          (settle_escrow id peer now)
          db
          (λ _ after. HasKeys after × (terms id after ≡ some (amount, lifecycle settled)))
  settle_ends peer canonical =
      let (e, found, same) = column-inverse terms_of _ _ open_terms in
      let can : is_finalizable e.status ≡ true = ap (λ q. is_finalizable q.1) same ∙ finalizable in
      let (runs, kept, ended, moved) =
        settle_escrow_conserves id peer now db e keys canonical found can in
      record {
        value = tt;
        after = (settle_escrow id peer now db).1;
        runs = ap (λ r. (r, (settle_escrow id peer now db).1)) runs;
        holds = (kept, ended ∙ ap (λ q. some (q.0, lifecycle settled)) same);
      }

module _ (id : String) (amount now : ℕ) (db : Db) (keys : HasKeys db)
    (open_terms : terms id db ≡ some (amount, lifecycle held)) where
  pub release_closes :
      Does
        (release_escrow id now)
        db
        (λ _ after. HasKeys after × (terms id after ≡ some (amount, lifecycle released)))
  unfolding is_finalizable
  release_closes = release_ends id amount now db keys (lifecycle held) refl open_terms

  pub settle_closes :
      (peer : String)
      → IsCanonical peer db.agents
      → Does
          (settle_escrow id peer now)
          db
          (λ _ after. HasKeys after × (terms id after ≡ some (amount, lifecycle settled)))
  unfolding is_finalizable
  settle_closes = settle_ends id amount now db keys (lifecycle held) refl open_terms
