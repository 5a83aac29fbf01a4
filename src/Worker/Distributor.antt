-- ===== src/Worker/Distributor.antt =====
-- worker/task_queue.py: `TaskDistributor`. What is known of a worker (`info`) is a parameter.
use the_grid_x.Base.{
  ℤ, pos, ltb_ℤ, Bool, true, false, Option, none, some, is_some, [], ◌∷◌, Text, Dict, lookup,
  insert, erase, if◌then◌else◌,
}
use the_grid_x.Worker.Tasks.{Task}

pub record TaskDistributor (Info : Type 0) : Type 0 where
  pub workers : Dict Info
  pub worker_capacities : Dict ℤ

-- The loop of `find_best_worker`.
unfoldable pub best_from : Dict ℤ → Option Text → (best_capacity : ℤ) → Option Text
best_from [] best_worker best_capacity = best_worker
best_from ((worker_id, capacity) ∷ rest) best_worker best_capacity =
    let higher = ltb_ℤ best_capacity capacity in
    best_from rest (if higher then some worker_id else best_worker)
      (if higher then capacity else best_capacity)

module _ {Info : Type 0} where
  unfoldable pub register_worker :
      Text → (capacity : ℤ) → Info → TaskDistributor Info → TaskDistributor Info
  register_worker worker_id capacity info d = record d {
    workers = insert worker_id info d.workers;
    worker_capacities = insert worker_id capacity d.worker_capacities;
  }

  unfoldable pub unregister_worker : Text → TaskDistributor Info → TaskDistributor Info
  unregister_worker worker_id d = record d {
    workers = erase worker_id d.workers;
    worker_capacities = erase worker_id d.worker_capacities;
  }

  unfoldable pub assign_task_to_worker : Task → Text → TaskDistributor Info → Bool × Task
  assign_task_to_worker task worker_id d =
      if is_some (lookup worker_id d.workers)
      then (true, record task { assigned_worker = some worker_id })
      else (false, task)

  -- The requirements are not looked at.
  unfoldable pub find_best_worker : TaskDistributor Info → Option Text
  find_best_worker d = best_from d.worker_capacities none (pos 0)
