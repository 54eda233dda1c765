-- ===== src/Conductor/Kahn/Relax.antt =====
-- The loop over the neighbours: every node loses one in-degree for each of its occurrences among
-- them, and is queued when that brings it to zero.
use agentbnb.Prelude.{
  ℕ, ◌+◌, ◌-◌, ◌≤◌, ◌≡◌, ◌&&◌, String, List, [], ◌∷◌, ◌++◌, ℤ, pos, pred_ℤ, is_zero, Dict, put,
  get-put, occurrences, occurrences-append, ltb, ◌==◌, str_eq, str_eq_iff, if◌then◌else◌, arith,
}
use agentbnb.Conductor.Kahn.{degree, relax}

degree-put :
    (w v : String) (n : ℤ) (d : Dict ℤ)
    → degree w (put v n d) ≡ (if str_eq v w then n else degree w d)
unfolding degree
degree-put w v n d = ground (arith, get-put w v n d)

pub relax_counts :
    (w : String) (n : ℕ) (vs : List String) (d : Dict ℤ) (queue : List String)
    → degree w d ≡ pos n
    → occurrences w vs ≤ n
    → (degree w (relax vs (d, queue)).0 ≡ pos (n - occurrences w vs))
      × (occurrences w (relax vs (d, queue)).1
          ≡ occurrences w queue
            + (if ltb 0 (occurrences w vs) && (occurrences w vs == n) then 1 else 0))
unfolding relax occurrences
relax_counts w n [] d queue h le = ground (arith, h)
relax_counts w n (v ∷ vs) d queue h le =
    let m = pred_ℤ (degree v d) in
    let ih =
      relax_counts w (if str_eq v w then n - 1 else n) vs (put v m d)
        (if is_zero m then queue ++ v ∷ [] else queue)
        (ground (arith, h, le, degree-put w v m d, str_eq_iff v w)) (ground (arith, le)) in
    ground (arith, h, ih.0, ih.1, le, occurrences-append w queue (v ∷ []), str_eq_iff v w)
