-- ===== src/Conductor/Waves/Layers.antt =====
-- Rounds that respect the dependencies, and those that `computeWaves` returns.
use agentbnb.Prelude.{
  ℕ, zero, suc, ◌<◌, ◌≡◌, refl, sym, subst, List-cases, true, Bool-cases, inl, inr, String, List,
  [], ◌∷◌, ◌++◌, all, All, Member, contains, contains-occurrences, occurrences, Dict, put, delete,
  All-put, All-delete, length, arith,
}
use agentbnb.Conductor.Validator.{SubTask}
use agentbnb.Conductor.Waves.{load, deps_resolved, next_wave, delete_all, waves_from, compute_waves}

-- One of the tasks has this identifier, and all that it depends on is done.
abbrev pub IsReady : List SubTask → List String → String → Type 0
IsReady ts done id =
    (t : SubTask) × Member t ts × (t.id ≡ id) × All (λ dep. 0 < occurrences dep done) t.depends_on

-- Every task of a round is ready when the rounds before it are done.
abbrev pub IsLayered : List SubTask → List String → List (List String) → Type 0
IsLayered ts done [] = Unit
IsLayered ts done (wave ∷ waves) = All (IsReady ts done) wave × IsLayered ts (done ++ wave) waves

-- An entry of the map of tasks.
abbrev pub IsEntry : List SubTask → String × SubTask → Type 0
IsEntry ts e = Member e.1 ts × (e.1.id ≡ e.0)

all_done :
    (done deps : List String)
    → all (λ d. contains d done) deps ≡ true
    → All (λ d. 0 < occurrences d done) deps
all_done done [] h = tt
all_done done (d ∷ ds) h =
    (ground (arith, h, contains-occurrences d done), all_done done ds (ground (arith, h)))

next_wave_empty : (done : List String) → next_wave done [] ≡ []
unfolding next_wave
next_wave_empty done = refl

pub waves-stop :
    (fuel : ℕ) (done : List String) (m : Dict SubTask)
    → next_wave done m ≡ []
    → waves_from (suc fuel) done m ≡ []
unfolding waves_from
waves-stop fuel done [] e = refl
waves-stop fuel done (t ∷ ts) e = rw (e, waves_from)

pub waves-next :
    (fuel : ℕ) (done : List String) (m : Dict SubTask) (id : String) (ids : List String)
    → next_wave done m ≡ id ∷ ids
    → waves_from (suc fuel) done m
      ≡ (id ∷ ids) ∷ waves_from fuel (done ++ id ∷ ids) (delete_all (id ∷ ids) m)
unfolding waves_from
waves-next fuel done [] id ids e = ground (arith, e, next_wave_empty done)
waves-next fuel done (t ∷ ts) id ids e = rw (e, waves_from)

module _ (P : String × SubTask → Type 0) where
  pub All-load :
      (ts : List SubTask) (m : Dict SubTask)
      → All (λ t. P (t.id, t)) ts
      → All P m
      → All P (load ts m)
  unfolding load
  All-load [] m p h = h
  All-load (t ∷ ts) m p h = All-load ts (put t.id t m) p.1 (All-put P t.id t m p.0 h)

  pub All-delete_all : (ids : List String) (m : Dict SubTask) → All P m → All P (delete_all ids m)
  unfolding delete_all
  All-delete_all [] m h = h
  All-delete_all (id ∷ ids) m h = All-delete_all ids (delete id m) (All-delete P id m h)

module _ (ts : List SubTask) where
  next_wave-IsReady :
      (done : List String) (m : Dict SubTask)
      → All (IsEntry ts) m
      → All (IsReady ts done) (next_wave done m)
  unfolding next_wave deps_resolved
  next_wave-IsReady done [] h = tt
  next_wave-IsReady done ((id, t) ∷ m) h = elim (Bool-cases (deps_resolved done t)) [
    | inl e ↦ rw e ((t, h.0.0, h.0.1, all_done done t.depends_on e), next_wave-IsReady done m h.1)
    | inr e ↦ rw e (next_wave-IsReady done m h.1)
  ]

  waves_from-IsLayered :
      (fuel : ℕ) (done : List String) (m : Dict SubTask)
      → All (IsEntry ts) m
      → IsLayered ts done (waves_from fuel done m)
  unfolding waves_from
  waves_from-IsLayered zero done m h = tt
  waves_from-IsLayered (suc fuel) done m h = elim (List-cases (next_wave done m)) [
    | inl e ↦ subst (IsLayered ts done) (sym (waves-stop fuel done m e)) tt
    | inr (id, ids, e) ↦
        let wave = id ∷ ids in
        subst (IsLayered ts done) (sym (waves-next fuel done m id ids e)) (
          subst (All (IsReady ts done)) e (next_wave-IsReady done m h),
          waves_from-IsLayered fuel (done ++ wave) (delete_all wave m)
              (All-delete_all (IsEntry ts) wave m h),
        )
  ]

  All-members :
      (us : List SubTask)
      → ((t : SubTask) → Member t us → Member t ts)
      → All (λ t. IsEntry ts (t.id, t)) us
  All-members [] h = tt
  All-members (u ∷ us) h = ((h u (inl refl), refl), All-members us (λ t m. h t (inr m)))

  pub compute_waves-IsLayered : IsLayered ts [] (compute_waves ts)
  unfolding compute_waves
  compute_waves-IsLayered =
      waves_from-IsLayered (length (load ts [])) [] (load ts [])
        (All-load (IsEntry ts) ts [] (All-members ts (λ t m. m)) tt)
