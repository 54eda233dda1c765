-- ===== src/Conductor/Waves/Progress.antt =====
-- On a plan the rounds hold every task, each once: a round is empty only when no task remains.
use agentbnb.Prelude.{
  ℕ, zero, suc, ◌+◌, ◌-◌, max, min, ◌≤◌, ◌<◌, ◌≡◌, refl, sym, subst, ap, true, Bool-cases,
  List-cases, inl, inr, String, List, [], ◌∷◌, ◌++◌, all, All, contains, contains-occurrences,
  occurrences, occurrences-append, Within, Dict, put, delete, keys, occurrences-keys-put,
  occurrences-keys-delete, length-delete, length-delete_le, length, str_eq, str_eq_iff, arith,
}
use agentbnb.Conductor.Validator.{SubTask}
use agentbnb.Conductor.Validator.Plan.{IsPlan, Dependencies, ids_of}
use agentbnb.Conductor.Waves.{load, deps_resolved, next_wave, delete_all, waves_from, compute_waves}
use agentbnb.Conductor.Waves.Layers.{waves-stop, waves-next, All-load, All-delete_all}

abbrev pub concat : List (List String) → List String
concat [] = []
concat (xs ∷ xss) = xs ++ concat xss

keys-load :
    (w : String) (ts : List SubTask) (m : Dict SubTask)
    → occurrences w (keys (load ts m))
      ≡ max (occurrences w (keys m)) (min 1 (occurrences w (ids_of ts)))
unfolding load occurrences
keys-load w [] m = omega arith
keys-load w (t ∷ ts) m =
    ground (arith, keys-load w ts (put t.id t m), occurrences-keys-put w t.id t m)

next_wave-Within : (done : List String) (m : Dict SubTask) → Within (next_wave done m) (keys m)
unfolding next_wave occurrences
next_wave-Within done [] w = omega arith
next_wave-Within done ((id, t) ∷ m) w = ground (arith, next_wave-Within done m w)

keys-delete_all :
    (w : String) (ids : List String) (m : Dict SubTask)
    → occurrences w (keys (delete_all ids m)) ≡ occurrences w (keys m) - occurrences w ids
unfolding delete_all occurrences
keys-delete_all w [] m = omega arith
keys-delete_all w (id ∷ ids) m =
    ground (arith, keys-delete_all w ids (delete id m), occurrences-keys-delete w id m)

length-delete_all : (ids : List String) (m : Dict SubTask) → length (delete_all ids m) ≤ length m
unfolding delete_all
length-delete_all [] m = omega arith
length-delete_all (id ∷ ids) m =
    omega (arith, length-delete_all ids (delete id m), length-delete_le id m)

module _ (ids : List String) (r : String → ℕ) where
  -- What a plan says of the dependencies of an entry.
  abbrev pub IsGrounded : String × SubTask → Type 0
  IsGrounded e = All (λ dep. (0 < occurrences dep ids) × (r dep < r e.0)) e.1.depends_on

  waits :
      (n : ℕ) (w : String) (done left deps : List String)
      → ((d : String) → r d < n → occurrences d left ≡ 0)
      → ((d : String) → occurrences d left + occurrences d done ≡ occurrences d ids)
      → r w < suc n
      → All (λ dep. (0 < occurrences dep ids) × (r dep < r w)) deps
      → all (λ d. contains d done) deps ≡ true
  waits n w done left [] ih c lt k = refl
  waits n w done left (d ∷ ds) ih c lt k =
      ground
        (arith, waits n w done left ds ih c lt k.1, ih d, c d, k.0, contains-occurrences d done)

  none_ready :
      (n : ℕ) (w : String) (done left : List String) (m : Dict SubTask)
      → ((d : String) → r d < n → occurrences d left ≡ 0)
      → ((d : String) → occurrences d left + occurrences d done ≡ occurrences d ids)
      → r w < suc n
      → All IsGrounded m
      → next_wave done m ≡ []
      → occurrences w (keys m) ≡ 0
  unfolding next_wave deps_resolved occurrences
  none_ready n w done left [] ih c lt k e = refl
  none_ready n w done left ((id, t) ∷ m) ih c lt k e =
      let tail : next_wave done m ≡ [] = ground (arith, e) in
      let rest = none_ready n w done left m ih c lt k.1 tail in
      elim (Bool-cases (str_eq id w)) [
        | inl q ↦
            let same : id ≡ w = (str_eq_iff id w).0 q in
            let full =
              waits n id done left t.depends_on ih c (subst (λ v. r v < suc n) (sym same) lt) k.0 in
            ground (arith, full, e)
        | inr q ↦ ground (arith, rest, q)
      ]

  stuck_empty :
      (done : List String) (m : Dict SubTask)
      → ((d : String) → occurrences d (keys m) + occurrences d done ≡ occurrences d ids)
      → All IsGrounded m
      → next_wave done m ≡ []
      → (n : ℕ) (w : String) → r w < n
      → occurrences w (keys m) ≡ 0
  stuck_empty done m c k e zero w lt = omega arith
  stuck_empty done m c k e (suc n) w lt =
      none_ready n w done (keys m) m (stuck_empty done m c k e n) c lt k e

  waves_from-All :
      (fuel : ℕ) (done : List String) (m : Dict SubTask)
      → length m ≤ fuel
      → ((d : String) → occurrences d (keys m) + occurrences d done ≡ occurrences d ids)
      → All IsGrounded m
      → (w : String) → occurrences w (concat (waves_from fuel done m)) ≡ occurrences w (keys m)
  unfolding waves_from occurrences
  waves_from-All zero done [] le c k w = refl
  waves_from-All zero done (e ∷ es) le c k w = omega arith
  waves_from-All (suc fuel) done m le c k w = elim (List-cases (next_wave done m)) [
    | inl p ↦ omega (
      arith,
      stuck_empty done m c k p (suc (r w)) w (omega arith),
      ap (λ v. occurrences w (concat v)) (waves-stop fuel done m p),
    )
    | inr (id, rest, p) ↦
        let wave = id ∷ rest in
        let next = delete_all wave m in
        let within : (d : String) → occurrences d wave ≤ occurrences d (keys m) = λ d.
          subst (λ v. occurrences d v ≤ occurrences d (keys m)) p (next_wave-Within done m d) in
        let shorter = length-delete id m (ground (arith, within id, str_eq_iff id id)) in
        let ih =
          waves_from-All fuel (done ++ wave) next
            (omega (arith, le, shorter, length-delete_all rest (delete id m)))
            (λ d.
              omega
                (arith, c d, within d, keys-delete_all d wave m, occurrences-append d done wave))
            (All-delete_all IsGrounded wave m k) w in
        omega (
          arith,
          ih,
          within w,
          keys-delete_all w wave m,
          occurrences-append w wave (concat (waves_from fuel (done ++ wave) next)),
          ap (λ v. occurrences w (concat v)) (waves-next fuel done m id rest p),
        )
  ]

module _ (max_credits : ℕ) (ts : List SubTask) (plan : IsPlan max_credits ts) where
  grounded :
      (us : List SubTask)
      → Dependencies (λ dep id. 0 < occurrences dep (ids_of ts)) us
      → Dependencies (λ dep id. plan.rank dep < plan.rank id) us
      → All (λ t. IsGrounded (ids_of ts) plan.rank (t.id, t)) us
  grounded [] c a = tt
  grounded (u ∷ us) c a = (both u.depends_on c.0 a.0, grounded us c.1 a.1)
    where
      both :
          (deps : List String)
          → All (λ dep. 0 < occurrences dep (ids_of ts)) deps
          → All (λ dep. plan.rank dep < plan.rank u.id) deps
          → All (λ dep. (0 < occurrences dep (ids_of ts)) × (plan.rank dep < plan.rank u.id)) deps
      both [] c a = tt
      both (d ∷ ds) c a = ((c.0, a.0), both ds c.1 a.1)

  loaded : (w : String) → occurrences w (keys (load ts [])) ≡ occurrences w (ids_of ts)
  unfolding occurrences
  loaded w = omega (arith, keys-load w ts [], plan.distinct w)

  pub compute_waves-all :
      (w : String) → occurrences w (concat (compute_waves ts)) ≡ occurrences w (ids_of ts)
  unfolding compute_waves occurrences
  compute_waves-all w =
      let start = load ts [] in
      omega (
        arith,
        loaded w,
        waves_from-All (ids_of ts) plan.rank (length start) [] start (omega arith)
            (λ d. omega (arith, loaded d))
            (All-load (IsGrounded (ids_of ts) plan.rank) ts []
              (grounded ts plan.closed plan.acyclic) tt)
            w,
      )
