-- ===== src/Auth/Replay.antt =====
-- src/auth/ucan-replay.ts: the bounded cache of token ids that were seen. A JavaScript `Map` is the
-- list of its entries in the order of insertion; the module-level cache is an argument and a result.
pub mod Bounds
use agentbnb.Prelude.{
  Option, none, some, ℕ, Bool, true, false, ◌||◌, String, List, [], ◌∷◌, ◌++◌, leb, length, str_eq,
  if◌then◌else◌,
}

-- The expiry is what the payload holds: `undefined` where it has none.
pub record Entry : Type 0 where
  pub jti : String
  pub exp : Option ℕ

abbrev pub Cache : Type 0
Cache = List Entry

abbrev pub max_cache_size : ℕ
max_cache_size = 10_000

-- `cache.has(jti)`.
unfoldable pub has : String → Cache → Bool
has jti [] = false
has jti (e ∷ c) = str_eq e.jti jti || has jti c

-- `exp <= now`, which `undefined` never satisfies.
abbrev pub has_passed : Option ℕ → ℕ → Bool
has_passed none now = false
has_passed (some exp) now = leb exp now

unfoldable pub evict_expired : ℕ → Cache → Cache
evict_expired now [] = []
evict_expired now (e ∷ c) =
    let rest = evict_expired now c in if has_passed e.exp now then rest else e ∷ rest

-- The deletion of the first key of the map.
unfoldable pub drop_oldest : Cache → Cache
drop_oldest [] = []
drop_oldest (e ∷ c) = c

unfoldable pub make_room : ℕ → Cache → Cache
unfolding evict_expired drop_oldest
make_room now c =
    let swept = evict_expired now c in
    if leb max_cache_size (length c)
    then if leb max_cache_size (length swept) then drop_oldest swept else swept
    else c

-- Whether the id was fresh, and the cache afterwards; `now` is `nowSeconds()`.
unfoldable pub check_and_record_jti : String → Option ℕ → ℕ → Cache → Bool × Cache
unfolding has make_room
check_and_record_jti jti exp now c =
    if has jti c
    then (false, c)
    else (true, make_room now c ++ (record { jti = jti; exp = exp }) ∷ [])
