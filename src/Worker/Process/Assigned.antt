-- ===== src/Worker/Process/Assigned.antt =====
-- A job from the coordinator's message to the worker's: coordinator/scheduler.py, worker/main.py,
-- worker/ws_worker_adapter.py, worker/task_queue.py and worker/task_executor.py.
use the_grid_x.Base.{
  suc, ◌≤◌, ℤ, ◌≡◌, refl, ap, ◌∙◌, true, false, Option, none, some, [], ◌∷◌, ◌++◌, Text, text,
  is_empty, order_by, insert_sorted, text_eq_refl, lookup, lookup-insert, leb, if◌then◌else◌, arith,
  Bool-cases, inl, inr,
}
use the_grid_x.Database.{Job}
use the_grid_x.Scheduler.{job_msg}
use the_grid_x.Worker.{
  Task, queued, running, TaskQueue, with_status, enqueue, start, dequeue, find_task, mark_completed,
  mark_failed, completed_task, failed_task, Environment, TaskExecutor, execute_in_docker,
  is_zero_code, timed, succeeded_with, exit_message,
}
use the_grid_x.Worker.Executor.Ended.{finish-EndedAs}
use the_grid_x.Worker.Executor.Works.{Works, queue_after, execute_in_docker-Works}
use the_grid_x.Worker.Adapter.{
  task_of, handle_assign_job, JobResult, poll, result_of, failed_result,
}
use the_grid_x.Worker.Adapter.Reports.{ended-get_task}
use the_grid_x.Worker.Process.Messages.{HybridWorker, take_job, receive_message}

-- What an empty queue holds of a task, after it is enqueued and dequeued.
abbrev only : Task → TaskQueue → TaskQueue
only t q = start (with_status queued t) [] (record q { available = true })

dequeue-enqueue_empty :
    (t : Task) (q : TaskQueue)
    → suc 0 ≤ q.max_queue_size
    → dequeue (enqueue t (record q { queue = [] })).1 ≡ (some (with_status running t), only t q)
unfolding dequeue enqueue order_by insert_sorted
dequeue-enqueue_empty t q room =
    let test : leb q.max_queue_size 0 ≡ false = ground arith in rw test refl

dequeue-enqueue :
    (t : Task) (q : TaskQueue)
    → q.queue ≡ []
    → suc 0 ≤ q.max_queue_size
    → dequeue (enqueue t q).1 ≡ (some (with_status running t), only t q)
dequeue-enqueue t q empty room =
    let same : q ≡ record q { queue = [] } = λ i. record q { queue = empty i } in
    ap (λ (p : TaskQueue). dequeue (enqueue t p).1) same ∙ dequeue-enqueue_empty t q room

only-active :
    (t : Task) (q : TaskQueue)
    → lookup t.task_id (only t q).active_tasks ≡ some (with_status running t)
only-active t q =
    rw
      (
        lookup-insert t.task_id t.task_id (with_status running t) q.active_tasks,
        text_eq_refl t.task_id,
      )
      refl

-- What the monitor sends for an exit code and logs.
abbrev pub sent_of : Environment → (job_id : Text) (code : ℤ) (logs : Text) → JobResult
sent_of env job_id code logs =
    if is_zero_code code
    then record {
      job_id = job_id;
      exit_code = 0;
      stdout = logs;
      stderr = [];
      duration_seconds = some env.duration_seconds;
    }
    else record {
      job_id = job_id;
      exit_code = 1;
      stdout = [];
      stderr = exit_message env code;
      duration_seconds = some env.duration_seconds;
    }

poll-queue_after :
    (env : Environment) (job_id : Text) (code : ℤ) (logs : Text) (q : TaskQueue) (t : Task)
    → lookup job_id q.active_tasks ≡ some t
    → find_task job_id q.queue ≡ none
    → poll job_id (queue_after env job_id code logs q) ≡ some (sent_of env job_id code logs)
unfolding poll mark_completed mark_failed result_of failed_result
poll-queue_after env job_id code logs q t active absent = elim (Bool-cases (is_zero_code code)) [
  | inl zero ↦
      let set : Task → Task =
        completed_task
          (some (succeeded_with env.duration_seconds (record { exit_code = code; logs = logs }))) in
      rw
        (
          zero,
          ended-get_task job_id q _ (set t) (finish-EndedAs job_id set q t active) absent,
          poll,
        )
        refl
  | inr other ↦
      let set : Task → Task =
        failed_task (exit_message env code) (some (timed env.duration_seconds)) in
      rw
        (
          other,
          ended-get_task job_id q _ (set t) (finish-EndedAs job_id set q t active) absent,
          poll,
        )
        refl
]

-- What a worker makes of the coordinator's message for a job.
abbrev pub task_for : (job_id : Text) → Job → Task
task_for job_id job = task_of (record {
  job_id = job_id;
  script = job.code;
  kind = if is_empty job.language then text "python" else job.language;
  timeout_s = some 30;
})

-- From the coordinator's message to the worker's: an idle worker that gets the message for a job says
-- that the job has started, the executor's next dequeue gives the job's task, and, where Docker and
-- the file system work, the monitor sends the logs with the code 0 where the container ends with
-- the code 0, and the code 1 with the container's code in a text for any other.
pub receive_message-sent :
    (timestamp goodbye : Text) (env : Environment) (job_id : Text) (job : Job) (w : HybridWorker)
    (x : TaskExecutor) (code : ℤ) (logs : Text)
    → w.task_queue.queue ≡ []
    → suc 0 ≤ w.task_queue.max_queue_size
    → let heard = (receive_message timestamp goodbye (job_msg job_id job) w).1 in
      let task = with_status running (task_for job_id job) in
      x.task_queue ≡ (dequeue heard.task_queue).1
      → x.docker_manager.available ≡ true
      → Works env.sdk task code logs
      → (heard.started ≡ w.started ++ job_id ∷ [])
        × ((dequeue heard.task_queue).0 ≡ some task)
        × (poll job_id (execute_in_docker env task x).1.task_queue
            ≡ some (sent_of env job_id code logs))
unfolding receive_message take_job handle_assign_job task_of find_task
receive_message-sent timestamp goodbye env job_id job w x code logs empty room handed available
      works =
    let t = task_for job_id job in
    let pulled = dequeue-enqueue t w.task_queue empty room in
    let at : x.task_queue ≡ only t w.task_queue =
      handed ∙ ap (λ (r : Option Task × TaskQueue). r.1) pulled in
    let active : lookup job_id (only t w.task_queue).active_tasks ≡ some (with_status running t) =
      only-active t w.task_queue in
    (
      refl,
      ap (λ (r : Option Task × TaskQueue). r.0) pulled,
      ap (poll job_id) (
            (execute_in_docker-Works env (with_status running t) code logs x works available).1
            ∙ ap (queue_after env job_id code logs) at)
          ∙ poll-queue_after env job_id code logs (only t w.task_queue) (with_status running t)
              active refl,
    )
