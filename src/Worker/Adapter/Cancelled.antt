-- ===== src/Worker/Adapter/Cancelled.antt =====
-- worker/ws_worker_adapter.py and worker/task_queue.py: jobs that the queue does not know.
use the_grid_x.Base.{
  ◌≡◌, ◌≤◌, refl, true, false, none, some, is_some, List, [], ◌∷◌, ◌++◌, Text, text_eq, text_eq_iff,
  text_eq_refl, lookup, erase, lookup-insert, lookup-erase, All, All-append, All-order_by, by_key,
  arith, OnSome, Option-cases, Bool-cases, inl, inr, leb, length,
}
use the_grid_x.Worker.Tasks.{Task, queued}
use the_grid_x.Worker.Queue.{
  TaskQueue, priority_value, with_status, enqueue, start, dequeue, remove_first, mark_running,
  finish, mark_completed, mark_failed, completed_task, failed_task, cancel_task, find_task,
  get_task,
}
use the_grid_x.Worker.Valid.{Operation, enqueued, dequeued, ran, succeeded, broke, withdrawn, step}
use the_grid_x.Worker.Valid.Removed.{remove_first-All}
use the_grid_x.Worker.Adapter.{AssignedJob, handle_assign_job, poll, monitor_and_send}

abbrev pub IsOther : Text → Task → Type 0
IsOther task_id t = text_eq t.task_id task_id ≡ false

-- No task of the queue has the id.
pub record Unknown (task_id : Text) (q : TaskQueue) : Type 0 where
  pub waiting : All (IsOther task_id) q.queue
  pub active : lookup task_id q.active_tasks ≡ none
  pub ended : lookup task_id q.completed_tasks ≡ none

module _ (task_id : Text) where
  find_task-none :
      (tasks : List Task) → All (IsOther task_id) tasks → find_task task_id tasks ≡ none
  unfolding find_task
  find_task-none [] h = refl
  find_task-none (t ∷ tasks) h = rw h.0 (find_task-none tasks h.1)

  Unknown-get_task : (q : TaskQueue) → Unknown task_id q → get_task task_id q ≡ none
  unfolding get_task
  Unknown-get_task q h =
      rw (find_task-none q.queue h.waiting, get_task) (rw (h.active, get_task) h.ended)

  Unknown-poll : (q : TaskQueue) → Unknown task_id q → poll task_id q ≡ none
  unfolding poll
  Unknown-poll q h = rw (Unknown-get_task q h, poll) refl

  enqueue-Unknown :
      (t : Task) (q : TaskQueue)
      → IsOther task_id t
      → Unknown task_id q
      → Unknown task_id (enqueue t q).1
  unfolding enqueue
  enqueue-Unknown t q other h = elim (Bool-cases (leb q.max_queue_size (length q.queue))) [
    | inl full ↦ rw full h
    | inr room ↦ rw room (record {
      waiting =
          All-order_by (by_key priority_value) (IsOther task_id)
            (q.queue ++ with_status queued t ∷ [])
            (All-append (IsOther task_id) q.queue (with_status queued t ∷ []) h.waiting
              (other, tt));
      active = h.active;
      ended = h.ended;
    })
  ]

  start-Unknown :
      (t : Task) (rest : List Task) (q : TaskQueue)
      → IsOther task_id t
      → All (IsOther task_id) rest
      → Unknown task_id q
      → Unknown task_id (start t rest q)
  start-Unknown t rest q other others h = record {
    waiting = others;
    active = rw (lookup-insert t.task_id task_id _ q.active_tasks, other) h.active;
    ended = h.ended;
  }

  dequeue_at-Unknown :
      (tasks : List Task) (q : TaskQueue)
      → Unknown task_id (record q { queue = tasks })
      → Unknown task_id (dequeue (record q { queue = tasks })).1
  unfolding dequeue
  dequeue_at-Unknown [] q h = record { waiting = tt; active = h.active; ended = h.ended }
  dequeue_at-Unknown (t ∷ tasks) q h =
      start-Unknown t tasks (record q { queue = t ∷ tasks }) h.waiting.0 h.waiting.1 h

  mark_running-Unknown :
      (j : Text) (q : TaskQueue) → Unknown task_id q → Unknown task_id (mark_running j q).1
  unfolding mark_running
  mark_running-Unknown j q h = elim (Option-cases (remove_first j q.queue)) [
    | inl gone ↦ rw (gone, mark_running) h
    | inr (found, e) ↦
        let others : OnSome (λ f. IsOther task_id f.0 × All (IsOther task_id) f.1) (some found) =
          rw e at (remove_first-All (IsOther task_id) j q.queue h.waiting) in
        rw (e, mark_running) (start-Unknown found.0 found.1 q others.0 others.1 h)
  ]

  finish-Unknown :
      (j : Text) (set : Task → Task) (q : TaskQueue)
      → Unknown task_id q
      → Unknown task_id (finish j set q)
  unfolding finish
  finish-Unknown j set q h = elim (Option-cases (lookup j q.active_tasks)) [
    | inl gone ↦ rw (gone, finish) h
    | inr (t, e) ↦
        let other : text_eq j task_id ≡ false =
          ground (arith, text_eq_iff j task_id, h.active, e) in
        rw (e, finish)
          (record {
            waiting = h.waiting;
            active = rw (lookup-erase j task_id q.active_tasks, other) h.active;
            ended = rw (lookup-insert j task_id (set t) q.completed_tasks, other) h.ended;
          })
  ]

  cancel_task-Unknown :
      (j : Text) (q : TaskQueue) → Unknown task_id q → Unknown task_id (cancel_task j q).1
  unfolding cancel_task
  cancel_task-Unknown j q h = elim (Option-cases (remove_first j q.queue)) [
    | inl gone ↦ elim (Bool-cases (is_some (lookup j q.active_tasks))) [
      | inl active ↦
          rw (gone, active, cancel_task)
            (record {
              waiting = h.waiting;
              active = rw (lookup-erase j task_id q.active_tasks) (ground (arith, h.active));
              ended = h.ended;
            })
      | inr idle ↦ rw (gone, idle, cancel_task) h
    ]
    | inr (found, e) ↦
        let others : OnSome (λ f. IsOther task_id f.0 × All (IsOther task_id) f.1) (some found) =
          rw e at (remove_first-All (IsOther task_id) j q.queue h.waiting) in
        rw (e, cancel_task) (record { waiting = others.1; active = h.active; ended = h.ended })
  ]

  -- The id is not enqueued again.
  abbrev pub Spares : Operation → Type 0
  Spares (enqueued t) = IsOther task_id t
  Spares _ = Unit

  step-Unknown :
      (o : Operation) (q : TaskQueue) → Spares o → Unknown task_id q → Unknown task_id (step o q)
  unfolding mark_completed mark_failed
  step-Unknown (enqueued t) q other h = enqueue-Unknown t q other h
  step-Unknown dequeued q _ h = dequeue_at-Unknown q.queue q h
  step-Unknown (ran j) q _ h = mark_running-Unknown j q h
  step-Unknown (succeeded j result) q _ h = finish-Unknown j (completed_task result) q h
  step-Unknown (broke j error result) q _ h = finish-Unknown j (failed_task error result) q h
  step-Unknown (withdrawn j) q _ h = cancel_task-Unknown j q h

  -- The queues that the rounds of the monitor see, between the operations.
  unfoldable pub seen : List Operation → TaskQueue → List TaskQueue
  seen [] q = q ∷ []
  seen (o ∷ os) q = q ∷ seen os (step o q)

  Unknown-monitor :
      (os : List Operation) (q : TaskQueue)
      → All Spares os
      → Unknown task_id q
      → monitor_and_send task_id (seen os q) ≡ none
  unfolding seen monitor_and_send
  Unknown-monitor [] q s h = rw (Unknown-poll q h, monitor_and_send) refl
  Unknown-monitor (o ∷ os) q s h =
      rw (Unknown-poll q h, monitor_and_send)
        (Unknown-monitor os (step o q) s.1 (step-Unknown o q s.0 h))

  remove_first-none :
      (tasks : List Task) → All (IsOther task_id) tasks → remove_first task_id tasks ≡ none
  unfolding remove_first
  remove_first-none [] h = refl
  remove_first-none (t ∷ tasks) h = rw (h.0, remove_first-none tasks h.1) refl

-- A job that is cancelled while it runs is never reported, however the queue goes on, where no task
-- with its id waits or has ended before, and none is enqueued again: the cancellation answers true,
-- and no round of the monitor sends.
pub cancel_task-unreported :
    (task_id : Text) (t : Task) (os : List Operation) (q : TaskQueue)
    → All (IsOther task_id) q.queue
    → lookup task_id q.active_tasks ≡ some t
    → lookup task_id q.completed_tasks ≡ none
    → All (Spares task_id) os
    → ((cancel_task task_id q).0 ≡ true)
      × (monitor_and_send task_id (seen task_id os (cancel_task task_id q).1) ≡ none)
unfolding cancel_task
cancel_task-unreported task_id t os q waiting active ended spares =
    let after : TaskQueue = record q { active_tasks = erase task_id q.active_tasks } in
    let unknown : Unknown task_id after = record {
      waiting = waiting;
      active = rw (lookup-erase task_id task_id q.active_tasks, text_eq_refl task_id) refl;
      ended = ended;
    } in
    rw (remove_first-none task_id q.queue waiting, active, cancel_task)
      (refl, Unknown-monitor task_id os after spares unknown)

-- So is a job that comes when the queue is full: it is dropped, and its monitor never sends.
pub handle_assign_job-unreported :
    (job : AssignedJob) (os : List Operation) (q : TaskQueue)
    → q.max_queue_size ≤ length q.queue
    → Unknown job.job_id q
    → All (Spares job.job_id) os
    → monitor_and_send job.job_id (seen job.job_id os (handle_assign_job job q)) ≡ none
unfolding handle_assign_job enqueue
handle_assign_job-unreported job os q full unknown spares =
    let test : leb q.max_queue_size (length q.queue) ≡ true = ground arith in
    rw (test, handle_assign_job, enqueue) (Unknown-monitor job.job_id os q spares unknown)
