-- ===== src/Worker/Best.antt =====
-- worker/task_queue.py: which worker `find_best_worker` gives.
use the_grid_x.Base.{
  ℤ, pos, ◌≤ℤ◌, ltb_ℤ, ◌≡◌, refl, true, Option, none, some, [], ◌∷◌, Text, Dict, All, In, ◌⊎◌, inl,
  inr, Bool-cases, arith,
}
use the_grid_x.Worker.Distributor.{TaskDistributor, best_from, find_best_worker}

abbrev AtMost : ℤ → Dict ℤ → Type 0
AtMost c = All (λ entry. entry.1 ≤ℤ c)

-- The answer is one of the workers, above `c`, and none is above it; or none is above `c`.
abbrev pub Best : Dict ℤ → Option Text → ℤ → Option Text → Type 0
Best d before c r =
    ((r ≡ before) × AtMost c d)
    ⊎ ((worker_id : Text) × (capacity : ℤ) × In (worker_id, capacity) d
        × (r ≡ some worker_id)
        × (ltb_ℤ c capacity ≡ true)
        × AtMost capacity d)

-- A worker further on, where the first is not above it.
Best-later :
    (worker_id : Text) (capacity : ℤ) (d : Dict ℤ) (before : Option Text) (c : ℤ) (r : Option Text)
    → capacity ≤ℤ c
    → Best d before c r
    → Best ((worker_id, capacity) ∷ d) before c r
Best-later worker_id capacity d before c r h (inl (e, most)) = inl (e, (h, most))
Best-later worker_id capacity d before c r h (inr (w, k, m, e, above, most)) =
    inr (w, k, inr m, e, above, (ground arith, most))

-- The first is above what came before.
Best-first :
    (worker_id : Text) (capacity : ℤ) (d : Dict ℤ) (before : Option Text) (c : ℤ) (r : Option Text)
    → ltb_ℤ c capacity ≡ true
    → Best d (some worker_id) capacity r
    → Best ((worker_id, capacity) ∷ d) before c r
Best-first worker_id capacity d before c r h (inl (e, most)) =
    inr (worker_id, capacity, inl refl, e, h, (ground arith, most))
Best-first worker_id capacity d before c r h (inr (w, k, m, e, above, most)) =
    inr (w, k, inr m, e, ground arith, (ground arith, most))

best_from-Best :
    (d : Dict ℤ) (before : Option Text) (c : ℤ) → Best d before c (best_from d before c)
unfolding best_from
best_from-Best [] before c = inl (refl, tt)
best_from-Best ((worker_id, capacity) ∷ d) before c = elim (Bool-cases (ltb_ℤ c capacity)) [
  | inl above ↦ rw above (
      Best-first worker_id capacity d before c _ above (best_from-Best d (some worker_id) capacity))
  | inr below ↦
      rw below
        (Best-later worker_id capacity d before c _ (ground arith) (best_from-Best d before c))
]

-- The best worker is registered with a positive capacity, and no worker has a higher one; none
-- means that no worker has a positive capacity.
pub find_best_worker-Best :
    {Info : Type 0} (d : TaskDistributor Info)
    → Best d.worker_capacities none (pos 0) (find_best_worker d)
unfolding find_best_worker
find_best_worker-Best d = best_from-Best d.worker_capacities none (pos 0)
