-- ===== src/Worker/Valid.antt =====
-- worker/task_queue.py: what stays true of a `TaskQueue` under any sequence of its methods.
pub mod Removed
pub mod Apart
use the_grid_x.Base.{
  ℕ, suc, ◌+◌, ◌≤◌, text_eq, text_eq_iff, ◌≡◌, refl, ◌⊎◌, inl, inr, Bool, true, false, leb,
  Bool-cases, Option, none, some, is_some, List, [], ◌∷◌, ◌++◌, length, length-append, All, Text,
  Dict, lookup, insert, erase, Values, Values-insert, Values-erase, Values-lookup, IsDescending,
  order_by-IsDescending, order_by, by_key, All-order_by, arith, OnSome, All-append, length-order_by,
  Option-cases, subst, sym, if◌then◌else◌,
}
use the_grid_x.Worker.Tasks.{Task, TaskResult, TaskStatus, queued, running, completed, failed}
use the_grid_x.Worker.Queue.{
  TaskQueue, new_queue, priority_value, with_status, enqueue, start, dequeue, remove_first,
  mark_running, finish, completed_task, mark_completed, failed_task, mark_failed, cancel_task,
}
use native.Mathlib.Nat.{le_trans}
use the_grid_x.Worker.Valid.Apart.{
  places, occurrences, places-enqueue, places-dequeue, places-mark_running, places-finish,
  places-cancel_task,
}
use the_grid_x.Worker.Valid.Removed.{
  remove_first-All, remove_first-IsDescending, remove_first-length,
}

abbrev pub IsFinished : Task → Type 0
IsFinished task = (task.status ≡ completed) ⊎ (task.status ≡ failed)

-- The queue is in order of priority and within its bound, and a task's status says where it stands.
pub record IsValid (q : TaskQueue) : Type 0 where
  pub ordered : IsDescending priority_value q.queue
  pub bounded : length q.queue ≤ q.max_queue_size
  pub waiting : All (λ t. t.status ≡ queued) q.queue
  pub working : Values (λ t. t.status ≡ running) q.active_tasks
  pub ended : Values IsFinished q.completed_tasks

enqueue-IsValid : (task : Task) (q : TaskQueue) → IsValid q → IsValid (enqueue task q).1
unfolding enqueue
enqueue-IsValid task q h = elim (Bool-cases (leb q.max_queue_size (length q.queue))) [
  | inl full ↦ rw full h
  | inr room ↦
      let space : suc (length q.queue) ≤ q.max_queue_size = ground arith in
      let longer : List Task = q.queue ++ with_status queued task ∷ [] in
      rw room (record {
        ordered = order_by-IsDescending priority_value longer;
        bounded = omega (
          arith,
          length-order_by (by_key priority_value) longer,
          length-append q.queue (with_status queued task ∷ []),
          space,
        );
        waiting =
            All-order_by (by_key priority_value) (λ t. t.status ≡ queued) longer
              (All-append (λ t. t.status ≡ queued) q.queue (with_status queued task ∷ []) h.waiting
                (refl, tt));
        working = h.working;
        ended = h.ended;
      })
]

-- The task in front of what is left goes to the active ones.
start-IsValid :
    (task : Task) (rest : List Task) (q : TaskQueue)
    → IsDescending priority_value rest
    → length rest ≤ q.max_queue_size
    → All (λ t. t.status ≡ queued) rest
    → IsValid q
    → IsValid (start task rest q)
start-IsValid task rest q order bound wait h = record {
  ordered = order;
  bounded = bound;
  waiting = wait;
  working =
      Values-insert (λ t. t.status ≡ running) task.task_id (with_status running task) q.active_tasks
        refl h.working;
  ended = h.ended;
}

dequeue_at-IsValid :
    (tasks : List Task) (q : TaskQueue)
    → IsValid (record q { queue = tasks })
    → IsValid (dequeue (record q { queue = tasks })).1
unfolding dequeue
dequeue_at-IsValid [] q h = record {
  ordered = h.ordered;
  bounded = h.bounded;
  waiting = h.waiting;
  working = h.working;
  ended = h.ended;
}
dequeue_at-IsValid (t ∷ tasks) q h =
    start-IsValid t tasks (record q { queue = t ∷ tasks }) h.ordered.1 (omega (arith, h.bounded))
      h.waiting.1 h

dequeue-IsValid : (q : TaskQueue) → IsValid q → IsValid (dequeue q).1
dequeue-IsValid q h = dequeue_at-IsValid q.queue q h

-- A queue in which the first task of an id is gone is valid still.
record Left (q : TaskQueue) (found : Task × List Task) : Type 0 where
  order : IsDescending priority_value found.1
  bound : length found.1 ≤ q.max_queue_size
  wait : All (λ t. t.status ≡ queued) found.1

removed-Left :
    (task_id : Text) (q : TaskQueue) → IsValid q → OnSome (Left q) (remove_first task_id q.queue)
removed-Left task_id q h = elim (Option-cases (remove_first task_id q.queue)) [
  | inl gone ↦ rw gone tt
  | inr (found, e) ↦
      let order : OnSome (λ f. IsDescending priority_value f.1) (some found) =
        rw e at (remove_first-IsDescending task_id q.queue h.ordered) in
      let wait : OnSome (λ f. (f.0.status ≡ queued) × All (λ t. t.status ≡ queued) f.1)
          (some found) =
        rw e at (remove_first-All (λ t. t.status ≡ queued) task_id q.queue h.waiting) in
      let shorter : OnSome (λ f. length q.queue ≡ suc (length f.1)) (some found) =
        rw e at (remove_first-length task_id q.queue) in
      rw e (record { order = order; bound = omega (arith, shorter, h.bounded); wait = wait.1 })
]

mark_running-IsValid :
    (task_id : Text) (q : TaskQueue) → IsValid q → IsValid (mark_running task_id q).1
unfolding mark_running
mark_running-IsValid task_id q h = elim (Option-cases (remove_first task_id q.queue)) [
  | inl gone ↦ rw (gone, mark_running) h
  | inr (found, e) ↦
      let left : OnSome (Left q) (some found) = rw e at (removed-Left task_id q h) in
      rw (e, mark_running) (start-IsValid found.0 found.1 q left.order left.bound left.wait h)
]

finish-IsValid :
    (task_id : Text) (set : Task → Task) (q : TaskQueue)
    → ((t : Task) → IsFinished (set t))
    → IsValid q
    → IsValid (finish task_id set q)
unfolding finish
finish-IsValid task_id set q final h = elim (Option-cases (lookup task_id q.active_tasks)) [
  | inl gone ↦ rw (gone, finish) h
  | inr (t, e) ↦
      rw (e, finish)
        (record {
          ordered = h.ordered;
          bounded = h.bounded;
          waiting = h.waiting;
          working = Values-erase (λ t. t.status ≡ running) task_id q.active_tasks h.working;
          ended = Values-insert IsFinished task_id (set t) q.completed_tasks (final t) h.ended;
        })
]

failed_task-IsFinished :
    (error : Text) (result : Option TaskResult) (t : Task) → IsFinished (failed_task error result t)
failed_task-IsFinished error none t = inr refl
failed_task-IsFinished error (some result) t = inr refl

cancel_task-IsValid :
    (task_id : Text) (q : TaskQueue) → IsValid q → IsValid (cancel_task task_id q).1
unfolding cancel_task
cancel_task-IsValid task_id q h = elim (Option-cases (remove_first task_id q.queue)) [
  | inl gone ↦ elim (Bool-cases (is_some (lookup task_id q.active_tasks))) [
    | inl active ↦
        rw (gone, active, cancel_task)
          (record {
            ordered = h.ordered;
            bounded = h.bounded;
            waiting = h.waiting;
            working = Values-erase (λ t. t.status ≡ running) task_id q.active_tasks h.working;
            ended = h.ended;
          })
    | inr idle ↦ rw (gone, idle, cancel_task) h
  ]
  | inr (found, e) ↦
      let left : OnSome (Left q) (some found) = rw e at (removed-Left task_id q h) in
      rw (e, cancel_task)
        (record {
          ordered = left.order;
          bounded = left.bound;
          waiting = left.wait;
          working = h.working;
          ended = h.ended;
        })
]

-- The methods of the queue that change it.
pub data Operation : Type 0 where
  enqueued : Task → Operation
  dequeued : Operation
  ran : (task_id : Text) → Operation
  succeeded : (task_id : Text) → Option TaskResult → Operation
  broke : (task_id error : Text) → Option TaskResult → Operation
  withdrawn : (task_id : Text) → Operation

abbrev pub step : Operation → TaskQueue → TaskQueue
step (enqueued task) q = (enqueue task q).1
step dequeued q = (dequeue q).1
step (ran task_id) q = (mark_running task_id q).1
step (succeeded task_id result) q = mark_completed task_id result q
step (broke task_id error result) q = mark_failed task_id error result q
step (withdrawn task_id) q = (cancel_task task_id q).1

pub step-IsValid : (o : Operation) (q : TaskQueue) → IsValid q → IsValid (step o q)
unfolding mark_completed mark_failed
step-IsValid (enqueued task) q h = enqueue-IsValid task q h
step-IsValid dequeued q h = dequeue-IsValid q h
step-IsValid (ran task_id) q h = mark_running-IsValid task_id q h
step-IsValid (succeeded task_id result) q h =
    finish-IsValid task_id (completed_task result) q (λ t. inl refl) h
step-IsValid (broke task_id error result) q h =
    finish-IsValid task_id (failed_task error result) q (failed_task-IsFinished error result) h
step-IsValid (withdrawn task_id) q h = cancel_task-IsValid task_id q h

-- Where an operation enqueues a task, its id stands nowhere in the queue: the task is a new object.
abbrev pub IsNew : Operation → TaskQueue → Type 0
IsNew (enqueued task) q = places task.task_id q ≡ 0
IsNew _ q = Unit

-- An id stands in one place at most: no task is in two places at a time.
abbrev pub IsApart : TaskQueue → Type 0
IsApart q = (task_id : Text) → places task_id q ≤ 1

new-places :
    (task : Task) (task_id : Text) (q : TaskQueue)
    → places task.task_id q ≡ 0
    → places task_id q ≤ 1
    → places task_id q + occurrences task_id (task ∷ []) ≤ 1
new-places task task_id q fresh h = elim (Bool-cases (text_eq task.task_id task_id)) [
  | inl hit ↦
      let same : places task_id q ≡ 0 =
        subst (λ k. places k q ≡ 0) ((text_eq_iff task.task_id task_id).0 hit) fresh in
      rw hit (omega (arith, same))
  | inr miss ↦ rw miss (omega (arith, h))
]

step-IsApart : (o : Operation) (q : TaskQueue) → IsNew o q → IsApart q → IsApart (step o q)
unfolding mark_completed mark_failed
step-IsApart (enqueued task) q fresh h task_id =
    le_trans (places-enqueue task_id task q) (new-places task task_id q fresh (h task_id))
step-IsApart dequeued q _ h task_id = le_trans (places-dequeue task_id q) (h task_id)
step-IsApart (ran j) q _ h task_id = le_trans (places-mark_running task_id j q) (h task_id)
step-IsApart (succeeded j result) q _ h task_id =
    le_trans (places-finish task_id j (completed_task result) q) (h task_id)
step-IsApart (broke j error result) q _ h task_id =
    le_trans (places-finish task_id j (failed_task error result) q) (h task_id)
step-IsApart (withdrawn j) q _ h task_id = le_trans (places-cancel_task task_id j q) (h task_id)

abbrev pub run : List Operation → TaskQueue → TaskQueue
run [] q = q
run (o ∷ os) q = run os (step o q)

-- Each task of the sequence is new when it is enqueued.
abbrev pub AllNew : List Operation → TaskQueue → Type 0
AllNew [] q = Unit
AllNew (o ∷ os) q = IsNew o q × AllNew os (step o q)

run_from-IsValid :
    (os : List Operation) (q : TaskQueue)
    → AllNew os q
    → IsValid q
    → IsApart q
    → IsValid (run os q) × IsApart (run os q)
run_from-IsValid [] q new h apart = (h, apart)
run_from-IsValid (o ∷ os) q new h apart =
    run_from-IsValid os (step o q) new.1 (step-IsValid o q h) (step-IsApart o q new.0 apart)

new_queue-IsApart : (max_queue_size : ℕ) → IsApart (new_queue max_queue_size)
unfolding places lookup
new_queue-IsApart n task_id = omega arith

-- After any sequence of the queue's methods on a new queue, in which each task that is enqueued is
-- new (no task that the queue then holds has its id), the queue is in order of priority and no
-- longer than its bound, each task in it is queued, each active task is running, each completed task
-- has completed or failed, and no id stands in two places of the queue and its two dicts.
pub run-IsValid :
    (max_queue_size : ℕ) (os : List Operation)
    → AllNew os (new_queue max_queue_size)
    → IsValid (run os (new_queue max_queue_size)) × IsApart (run os (new_queue max_queue_size))
run-IsValid n os new =
    run_from-IsValid os (new_queue n) new
      (record { ordered = tt; bounded = omega arith; waiting = tt; working = tt; ended = tt })
      (new_queue-IsApart n)
