-- ===== src/Auth/Replay/Bounds.antt =====
-- How the cache grows and what it remembers (src/auth/ucan-replay.ts).
use agentbnb.Prelude.{
  Option, some, ℕ, ◌≤◌, ◌<◌, ◌≡◌, ◌↔◌, refl, ◌≢◌, ◌⊎◌, inl, inr, true, false, ◌||◌, String, [], ◌∷◌,
  ◌++◌, arith, length, length-append, str_eq_iff, Bool-cases,
}
use agentbnb.Auth.Replay.{
  Cache, max_cache_size, has, evict_expired, drop_oldest, make_room, check_and_record_jti,
  has_passed,
}

length-evict_expired : (now : ℕ) (c : Cache) → length (evict_expired now c) ≤ length c
unfolding evict_expired
length-evict_expired now [] = omega arith
length-evict_expired now (e ∷ c) = ground (arith, length-evict_expired now c)

length-drop_oldest : (c : Cache) → 0 < length c → length (drop_oldest c) < length c
unfolding drop_oldest
length-drop_oldest [] h = omega arith
length-drop_oldest (e ∷ c) h = omega arith

length-make_room :
    (now : ℕ) (c : Cache) → length c ≤ max_cache_size → length (make_room now c) < max_cache_size
unfolding make_room
length-make_room now c h =
    ground (arith, length-evict_expired now c, length-drop_oldest (evict_expired now c))

has-append : (j : String) (c d : Cache) → has j (c ++ d) ≡ (has j c || has j d)
unfolding has
has-append j [] d = refl
has-append j (e ∷ c) d = ground (arith, has-append j c d)

check_and_record_jti-bounded :
    (jti : String) (exp : Option ℕ) (now : ℕ) (c : Cache)
    → length c ≤ max_cache_size
    → length (check_and_record_jti jti exp now c).1 ≤ max_cache_size
unfolding check_and_record_jti
check_and_record_jti-bounded jti exp now c h = ground (
  arith,
  length-make_room now c h,
  length-append (make_room now c) ((record { jti = jti; exp = exp }) ∷ []),
)

has_self :
    (j : String) (exp : Option ℕ) (c : Cache)
    → has j (c ++ (record { jti = j; exp = exp }) ∷ []) ≡ true
unfolding has
has_self j exp [] = ground (arith, str_eq_iff j j)
has_self j exp (e ∷ c) = ground (arith, has_self j exp c)

pub check_and_record_jti-has :
    (jti : String) (exp : Option ℕ) (now : ℕ) (c : Cache)
    → let (fresh, c') = check_and_record_jti jti exp now c in
      ((fresh ≡ true) ↔ (has jti c ≡ false)) × (fresh ≡ false → c' ≡ c) × (has jti c' ≡ true)
unfolding check_and_record_jti
check_and_record_jti-has jti exp now c = elim (Bool-cases (has jti c)) [
  | inl old ↦ (ground arith, ground arith, ground arith)
  | inr new ↦ (ground arith, ground arith, ground (arith, has_self jti exp (make_room now c)))
]

-- In a cache within its limit an id is accepted exactly when the cache does not hold it, a refusal
-- changes nothing, and afterwards the cache holds the id in either case and is within its limit.
pub check_and_record_jti_lem :
    (jti : String) (exp : Option ℕ) (now : ℕ) (c : Cache)
    → length c ≤ max_cache_size
    → let (fresh, c') = check_and_record_jti jti exp now c in
      ((fresh ≡ true) ↔ (has jti c ≡ false))
      × (fresh ≡ false → c' ≡ c)
      × (has jti c' ≡ true)
      × (length c' ≤ max_cache_size)
check_and_record_jti_lem jti exp now c h =
    let d = check_and_record_jti-has jti exp now c in
    (d.0, d.1, d.2, check_and_record_jti-bounded jti exp now c h)

-- The cache holds an entry of the id that has not expired at `now`.
abbrev pub IsLive : String → ℕ → Cache → Type 0
IsLive j now [] = ⊥
IsLive j now (e ∷ c) = ((e.jti ≡ j) × (has_passed e.exp now ≡ false)) ⊎ IsLive j now c

has-of_live : (j : String) (now : ℕ) (c : Cache) → IsLive j now c → has j c ≡ true
unfolding has
has-of_live j now [] h = absurd h
has-of_live j now (e ∷ c) (inl h) = ground (arith, str_eq_iff e.jti j)
has-of_live j now (e ∷ c) (inr h) = ground (arith, has-of_live j now c h)

has-evict_expired :
    (j : String) (now : ℕ) (c : Cache) → IsLive j now c → has j (evict_expired now c) ≡ true
unfolding has evict_expired
has-evict_expired j now [] h = absurd h
has-evict_expired j now (e ∷ c) (inl h) = ground (arith, str_eq_iff e.jti j)
has-evict_expired j now (e ∷ c) (inr h) = ground (arith, has-evict_expired j now c h)

-- Recording another id forgets no unexpired id, as long as the entries that have not expired do not
-- fill the cache by themselves.
pub check_and_record_jti-keeps :
    (j jti : String) (exp : Option ℕ) (now : ℕ) (c : Cache)
    → IsLive j now c
    → length (evict_expired now c) < max_cache_size
    → has j (check_and_record_jti jti exp now c).1 ≡ true
unfolding check_and_record_jti make_room
check_and_record_jti-keeps j jti exp now c h room = ground (
  arith,
  has-of_live j now c h,
  has-evict_expired j now c h,
  has-append j (evict_expired now c) ((record { jti = jti; exp = exp }) ∷ []),
  has-append j c ((record { jti = jti; exp = exp }) ∷ []),
)

-- All entries of the id expire exactly at `now`.
abbrev pub IsDue : String → ℕ → Cache → Type 0
IsDue j now [] = Unit
IsDue j now (e ∷ c) = (e.jti ≡ j → e.exp ≡ some now) × IsDue j now c

has-evict_due :
    (j : String) (now : ℕ) (c : Cache) → IsDue j now c → has j (evict_expired now c) ≡ false
unfolding has evict_expired
has-evict_due j now [] h = refl
has-evict_due j now (e ∷ c) h = ground (arith, str_eq_iff e.jti j, has-evict_due j now c h.1)

has-drop_oldest : (j : String) (c : Cache) → has j c ≡ false → has j (drop_oldest c) ≡ false
unfolding has drop_oldest
has-drop_oldest j [] h = refl
has-drop_oldest j (e ∷ c) h = ground arith

-- Of two different ids, let the cache be full, lack the first, and hold the second only in
-- entries that expire at this very second. Recording the first then forgets the second, which is
-- accepted once more in that second.
pub replay_when_due :
    (j other : String) (exp again : Option ℕ) (now : ℕ) (c : Cache)
    → other ≢ j
    → has other c ≡ false
    → max_cache_size ≤ length c
    → IsDue j now c
    → let (_, c') = check_and_record_jti other exp now c in
      (check_and_record_jti j again now c').0 ≡ true
unfolding check_and_record_jti make_room has
replay_when_due j other exp again now c ne new full due = ground (
  arith,
  str_eq_iff other j,
  has-evict_due j now c due,
  has-drop_oldest j (evict_expired now c),
  has-append j (evict_expired now c) ((record { jti = other; exp = exp }) ∷ []),
  has-append j (drop_oldest (evict_expired now c)) ((record { jti = other; exp = exp }) ∷ []),
)
