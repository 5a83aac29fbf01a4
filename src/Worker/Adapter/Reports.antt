-- ===== src/Worker/Adapter/Reports.antt =====
-- worker/ws_worker_adapter.py and worker/task_executor.py: what a job's monitor sends of an execution.
use the_grid_x.Base.{ℕ, ◌≡◌, refl, ap, ◌∙◌, none, some, Text, lookup, ◌⊎◌, inl, inr}
use the_grid_x.Worker.Tasks.{Task, TaskResult, TaskStatus, completed, failed}
use the_grid_x.Worker.Queue.{TaskQueue, find_task, get_task}
use the_grid_x.Worker.Executor.{Environment, TaskExecutor, execute_in_docker}
use the_grid_x.Worker.Executor.Ended.{EndedAs, Agrees, execute_in_docker-Agrees}
use the_grid_x.Worker.Adapter.{JobResult, completed_result, failed_result, result_of, poll}

pub ended-get_task :
    (task_id : Text) (before after : TaskQueue) (t : Task)
    → EndedAs task_id before after t
    → find_task task_id before.queue ≡ none
    → get_task task_id after ≡ some t
unfolding get_task
ended-get_task task_id before after t e absent =
    rw (ap (find_task task_id) e.queue ∙ absent, get_task) (rw (e.active, get_task) e.ended)

-- What is sent of a task that ended.
pub record Sent (task_id : Text) (status : TaskStatus) (duration_seconds : ℕ) (r : JobResult)
    : Type 0 where
  pub job_id : r.job_id ≡ task_id
  pub exit_code :
      ((status ≡ completed) × (r.exit_code ≡ 0)) ⊎ ((status ≡ failed) × (r.exit_code ≡ 1))
  pub duration : r.duration_seconds ≡ some duration_seconds

result_of-Sent :
    (task_id : Text) (t : Task) (status s : TaskStatus) (result : TaskResult) (duration : ℕ)
    → (s ≡ completed) ⊎ (s ≡ failed)
    → status ≡ s
    → t.result ≡ some result
    → result.duration_seconds ≡ some duration
    → (r : JobResult) × (result_of task_id t status ≡ some r) × Sent task_id s duration r
unfolding result_of failed_result
result_of-Sent task_id t status s result duration (inl e) k tr d = (
  completed_result task_id result,
  rw (k ∙ e, tr) refl,
  record { job_id = refl; exit_code = inl (e, refl); duration = d },
)
result_of-Sent task_id t status s result duration (inr e) k tr d = (
  failed_result task_id t.error result,
  rw (k ∙ e, tr) refl,
  record { job_id = refl; exit_code = inr (e, refl); duration = d },
)

-- Whatever Docker answers, the job of an executed task gets its message: the next round of its monitor
-- sends one, with the exit code 0 where the task completed and 1 where it failed, and with the time
-- that it took; the task is active before, and no other task in the queue has its id.
pub execute_in_docker-Sent :
    (env : Environment) (task before : Task) (x : TaskExecutor)
    → lookup task.task_id x.task_queue.active_tasks ≡ some before
    → find_task task.task_id x.task_queue.queue ≡ none
    → (r : JobResult) × (poll task.task_id (execute_in_docker env task x).1.task_queue ≡ some r)
      × Sent task.task_id (execute_in_docker env task x).0.status env.duration_seconds r
unfolding poll
execute_in_docker-Sent env task before x active absent =
    let end : Agrees env task.task_id x.task_queue (execute_in_docker env task x) =
      execute_in_docker-Agrees env task before x active in
    let sent =
      result_of-Sent task.task_id end.kept.0 end.kept.0.status
        (execute_in_docker env task x).0.status _ env.duration_seconds end.final end.kept.2
        end.kept.3 refl in
    (
      sent.0,
      rw (ended-get_task task.task_id x.task_queue _ end.kept.0 end.kept.1 absent, poll) sent.1,
      sent.2,
    )
