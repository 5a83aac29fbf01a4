-- ===== src/Worker/Executor/Concurrency.antt =====
-- worker/task_executor.py: how many tasks `start_executor` has in execution.
use the_grid_x.Base.{
  ℕ, zero, suc, ◌≤◌, ltb, ◌≡◌, refl, not, Option, none, some, List, [], ◌∷◌, length, length-append,
  length-keep-le, text_eq, ◌⊎◌, inl, inr, Bool-cases, arith,
}
use the_grid_x.Worker.Tasks.{Task}
use the_grid_x.Worker.Queue.{TaskQueue, dequeue}
use the_grid_x.Worker.Docker.{without}
use the_grid_x.Worker.Executor.Execute.{TaskExecutor, schedule, by_next, fill, schedule_tasks}

length-schedule :
    (t : Task) (x : TaskExecutor)
    → length (schedule t x).execution_tasks ≤ suc (length x.execution_tasks)
length-schedule t x = omega (
  arith,
  length-append (without t.task_id x.execution_tasks) (t.task_id ∷ []),
  length-keep-le (λ w. not (text_eq w t.task_id)) x.execution_tasks,
)

-- What a dequeue does to the length of the queue.
abbrev Shorter : TaskQueue → Option Task × TaskQueue → Type 0
Shorter q (none, r) = r.queue ≡ []
Shorter q (some t, r) = length q.queue ≡ suc (length r.queue)

dequeue_at-Shorter :
    (tasks : List Task) (q : TaskQueue)
    → Shorter (record q { queue = tasks }) (dequeue (record q { queue = tasks }))
unfolding dequeue
dequeue_at-Shorter [] q = refl
dequeue_at-Shorter (t ∷ tasks) q = refl

module _ (max_concurrent : ℕ) where
  -- At most as many tasks as allowed, and fewer only where none waits.
  abbrev pub Filled : TaskExecutor → Type 0
  Filled x =
      (length x.execution_tasks ≤ max_concurrent)
      × ((x.task_queue.queue ≡ []) ⊎ (max_concurrent ≤ length x.execution_tasks))

  by_next-Filled :
      (rest : TaskExecutor → List Task × TaskExecutor) (rounds : ℕ) (x : TaskExecutor)
      (r : Option Task × TaskQueue)
      → suc (length x.execution_tasks) ≤ max_concurrent
      → length x.task_queue.queue ≤ rounds
      → Shorter x.task_queue r
      → ((y : TaskExecutor)
          → length y.execution_tasks ≤ max_concurrent
          → suc (length y.task_queue.queue) ≤ rounds
          → Filled (rest y).1)
      → Filled (by_next rest x r).1
  by_next-Filled rest rounds x (none, q) h k s ih = (omega (arith, h), inl s)
  by_next-Filled rest rounds x (some t, q) h k s ih =
      ih (schedule t (record x { task_queue = q }))
        (omega (arith, h, length-schedule t (record x { task_queue = q }))) (omega (arith, k, s))

  fill-Filled :
      (rounds : ℕ) (x : TaskExecutor)
      → length x.execution_tasks ≤ max_concurrent
      → suc (length x.task_queue.queue) ≤ rounds
      → Filled (fill rounds max_concurrent x).1
  unfolding fill
  fill-Filled zero x h enough = absurd (omega arith)
  fill-Filled (suc rounds) x h enough =
      elim (Bool-cases (ltb (length x.execution_tasks) max_concurrent)) [
        | inr full ↦ rw full (h, inr (ground arith))
        | inl room ↦ rw room (
            by_next-Filled (fill rounds max_concurrent) rounds x (dequeue x.task_queue)
              (ground arith) (omega (arith, enough))
              (dequeue_at-Shorter x.task_queue.queue x.task_queue) (fill-Filled rounds))
      ]

-- After a pass of the executor's loop at most `max_concurrent` tasks are in execution, where no more
-- were before, and if there are fewer then no task waits.
pub schedule_tasks-bounds :
    (max_concurrent : ℕ) (x : TaskExecutor)
    → length x.execution_tasks ≤ max_concurrent
    → let after = (schedule_tasks max_concurrent x).1 in
      (length after.execution_tasks ≤ max_concurrent)
      × ((after.task_queue.queue ≡ []) ⊎ (max_concurrent ≤ length after.execution_tasks))
schedule_tasks-bounds max_concurrent x h =
    fill-Filled max_concurrent (suc (length x.task_queue.queue)) x h (omega arith)
