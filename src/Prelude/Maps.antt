-- ===== src/Prelude/Maps.antt =====
-- A JavaScript `Map` with texts for keys: the list of its entries in the order of insertion.
use Prim.Native.String.{String}
use mathlib.Core.Path.{◌≡◌, refl, sym, subst}
use mathlib.Core.Option.{Option, none, some}
use mathlib.Core.List.{List, [], ◌∷◌}
use native.Mathlib.Omega.{arith}
use text.Mathlib.Text.{◌==◌ as str_eq}
use text.Mathlib.TextEquality.{eq_iff as str_eq_iff}
use Prim.Native.Nat.{max, suc, ◌-◌, ◌<◌, ◌≤◌}
use mathlib.Core.Logic.{inl, inr}
use mathlib.Core.Bool.{false}
use agentbnb.Prelude.Lists.{length, All}
use agentbnb.Prelude.Occurrences.{occurrences}
use agentbnb.Prelude.Tests.{Bool-cases, if◌then◌else◌}

abbrev pub Dict {ℓ} : Type ℓ → Type ℓ
Dict V = List (String × V)

module _ {ℓ} {V : Type ℓ} where
  -- `Map.prototype.get`.
  unfoldable pub get : String → Dict V → Option V
  get k [] = none
  get k ((j, v) ∷ m) = if str_eq j k then some v else get k m

  -- `Map.prototype.set`: an old key keeps its place.
  unfoldable pub put : String → V → Dict V → Dict V
  put k v [] = (k, v) ∷ []
  put k v ((j, u) ∷ m) = let rest = put k v m in if str_eq j k then (j, v) ∷ m else (j, u) ∷ rest

  pub get-put :
      (k j : String) (v : V) (m : Dict V)
      → get k (put j v m) ≡ (if str_eq j k then some v else get k m)
  unfolding get put
  get-put k j v [] = refl
  get-put k j v ((i, u) ∷ m) =
      ground (arith, get-put k j v m, str_eq_iff i j, str_eq_iff i k, str_eq_iff j k)

  abbrev pub keys : Dict V → List String
  keys [] = []
  keys ((j, v) ∷ m) = j ∷ keys m

  -- A new key is added once, an old one not again.
  pub occurrences-keys-put :
      (k j : String) (v : V) (m : Dict V)
      → occurrences k (keys (put j v m))
        ≡ (if str_eq j k then max 1 (occurrences k (keys m)) else occurrences k (keys m))
  unfolding put occurrences
  occurrences-keys-put k j v [] = ground arith
  occurrences-keys-put k j v ((i, u) ∷ m) =
      ground (arith, occurrences-keys-put k j v m, str_eq_iff i j, str_eq_iff i k, str_eq_iff j k)

  -- `Map.prototype.delete`.
  unfoldable pub delete : String → Dict V → Dict V
  delete k [] = []
  delete k ((j, v) ∷ m) = let rest = delete k m in if str_eq j k then m else (j, v) ∷ rest

  pub occurrences-keys-delete :
      (k j : String) (m : Dict V)
      → occurrences k (keys (delete j m)) ≡ occurrences k (keys m) - (if str_eq j k then 1 else 0)
  unfolding delete occurrences
  occurrences-keys-delete k j [] = ground arith
  occurrences-keys-delete k j ((i, u) ∷ m) =
      ground (arith, occurrences-keys-delete k j m, str_eq_iff i j, str_eq_iff i k, str_eq_iff j k)

  pub length-delete :
      (k : String) (m : Dict V) → 0 < occurrences k (keys m) → length m ≡ suc (length (delete k m))
  unfolding delete occurrences
  length-delete k [] h = omega arith
  length-delete k ((i, u) ∷ m) h = ground (arith, length-delete k m)

  pub length-delete_le : (k : String) (m : Dict V) → length (delete k m) ≤ length m
  unfolding delete
  length-delete_le k [] = omega arith
  length-delete_le k ((i, u) ∷ m) = ground (arith, length-delete_le k m)

  pub All-put {κ} :
      (P : String × V → Type κ) (k : String) (v : V) (m : Dict V)
      → P (k, v)
      → All P m
      → All P (put k v m)
  unfolding put
  All-put P k v [] p h = (p, tt)
  All-put P k v ((i, u) ∷ m) p h = elim (Bool-cases (str_eq i k)) [
    | inl e ↦ rw e ((subst (λ j. P (j, v)) (sym ((str_eq_iff i k).0 e)) p), h.1)
    | inr e ↦ rw e (h.0, All-put P k v m p h.1)
  ]

  pub All-delete {κ} :
      (P : String × V → Type κ) (k : String) (m : Dict V) → All P m → All P (delete k m)
  unfolding delete
  All-delete P k [] h = tt
  All-delete P k ((i, u) ∷ m) h = elim (Bool-cases (str_eq i k)) [
    | inl e ↦ rw e h.1
    | inr e ↦ rw e (h.0, All-delete P k m h.1)
  ]

  pub get-delete : (k j : String) (m : Dict V) → str_eq k j ≡ false → get k (delete j m) ≡ get k m
  unfolding get delete
  get-delete k j [] h = refl
  get-delete k j ((i, u) ∷ m) h =
      ground (arith, get-delete k j m h, h, str_eq_iff i j, str_eq_iff i k, str_eq_iff k j)

  pub put-put : (k : String) (u v : V) (m : Dict V) → put k v (put k u m) ≡ put k v m
  unfolding put
  put-put k u v [] = ground (arith, str_eq_iff k k)
  put-put k u v ((i, x) ∷ m) = ground (arith, put-put k u v m)

  pub get-put_own : (k : String) (v : V) (m : Dict V) → get k (put k v m) ≡ some v
  get-put_own k v m = ground (arith, get-put k k v m, str_eq_iff k k)

  pub All-get {κ} :
      (P : V → Type κ) (k : String) (m : Dict V) (v : V)
      → All (λ e. P e.1) m
      → get k m ≡ some v
      → P v
  unfolding get
  All-get P k [] v h e = absurd (ground (arith, e))
  All-get P k ((j, u) ∷ m) v h e = elim (Bool-cases (str_eq j k)) [
    | inl b ↦ subst P (cc) h.0
    | inr b ↦ All-get P k m v h.1 (ground (arith, e, b))
  ]
