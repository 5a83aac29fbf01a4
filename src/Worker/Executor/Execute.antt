-- ===== src/Worker/Executor/Execute.antt =====
-- worker/task_executor.py: the methods of `TaskExecutor` around `_execute_in_docker`.
use the_grid_x.Base.{
  ℕ, zero, suc, ltb, ℤ, Bool, true, false, Option, none, some, List, [], ◌∷◌, ◌++◌, length, Text,
  text, is_empty, if◌then◌else◌,
}
use the_grid_x.Worker.Tasks.{Task, TaskResult, TaskStatus, completed, failed}
use the_grid_x.Worker.Queue.{TaskQueue, dequeue, mark_completed, mark_failed, cancel_task}
use the_grid_x.Worker.Exec.{Failure, timed_out, failure, Attempt, returned, raised}
use the_grid_x.Worker.Docker.{DockerManager, is_member, without}
use the_grid_x.Worker.Executor.Code.{lower}
use the_grid_x.Worker.Executor.InDocker.{
  Environment, Progress, Finished, try_in_docker, clean_up_timeout, clean_up_exception,
}

-- Of the two dicts, the keys: the languages with a handler of their own, and the tasks in execution.
pub record TaskExecutor : Type 0 where
  pub docker_manager : DockerManager
  pub task_queue : TaskQueue
  pub running : Bool
  pub execution_handlers : List Text
  pub execution_tasks : List Text

abbrev pub new_executor : DockerManager → TaskQueue → TaskExecutor
new_executor m q = record {
  docker_manager = m;
  task_queue = q;
  running = false;
  execution_handlers = [];
  execution_tasks = [];
}

-- `language.lower()` is the key.
unfoldable pub register_language_handler : (language : Text) → TaskExecutor → TaskExecutor
register_language_handler language x = record x {
  execution_handlers = lower language ∷ without (lower language) x.execution_handlers;
}

-- What `execute_task` returns, without the container's stats; none where a key is missing.
pub record Report : Type 0 where
  pub status : TaskStatus
  pub output : Option Text
  pub exit_code : Option ℤ
  pub error : Option Text
  pub duration_seconds : Option ℕ

abbrev pub is_zero_code : ℤ → Bool
is_zero_code (ℤ.pos zero) = true
is_zero_code (ℤ.pos (suc n)) = false
is_zero_code (ℤ.negsuc n) = false

-- `str(e)`
abbrev pub str_of : Failure → Text
str_of timed_out = []
str_of (failure message) = message

abbrev pub timed : ℕ → TaskResult
timed duration = record { output = none; error = none; duration_seconds = some duration }

abbrev pub set_both : DockerManager → TaskQueue → TaskExecutor → TaskExecutor
set_both m q x = record x { docker_manager = m; task_queue = q }

-- `mark_failed` and the report of an exception.
unfoldable pub give_up :
    (duration_seconds : ℕ)
    → Task
    → (error_msg : Text) → DockerManager
    → TaskExecutor
    → Report × TaskExecutor
give_up duration task error_msg m x = (
  record {
    status = failed;
    output = none;
    exit_code = none;
    error = some error_msg;
    duration_seconds = some duration;
  },
  set_both m (mark_failed task.task_id error_msg (some (timed duration)) x.task_queue) x,
)

abbrev pub succeeded_with : (duration_seconds : ℕ) → Finished → TaskResult
succeeded_with duration f = record {
  output = some f.logs;
  error = none;
  duration_seconds = some duration;
}

module _ (env : Environment) where
  abbrev pub exit_message : ℤ → Text
  exit_message code = text "Task failed with exit code " ++ env.decimal code

  -- "Parse result"
  unfoldable pub parse_result :
      Task → Finished → DockerManager → TaskExecutor → Report × TaskExecutor
  parse_result task f m x =
      if is_zero_code f.exit_code
      then (
        record {
          status = completed;
          output = some f.logs;
          exit_code = none;
          error = none;
          duration_seconds = some env.duration_seconds;
        },
        set_both m
            (mark_completed task.task_id (some (succeeded_with env.duration_seconds f))
              x.task_queue)
            x,
      )
      else (
        record {
          status = failed;
          output = none;
          exit_code = some f.exit_code;
          error = some (if is_empty f.logs then exit_message f.exit_code else f.logs);
          duration_seconds = some env.duration_seconds;
        },
        set_both m
            (mark_failed task.task_id (exit_message f.exit_code) (some (timed env.duration_seconds))
              x.task_queue)
            x,
      )

  -- What follows the `try` block.
  unfoldable pub conclude :
      Task → Attempt Finished × Progress → TaskExecutor → Report × TaskExecutor
  conclude task (returned f, p) x = parse_result task f p.docker_manager x
  conclude task (raised timed_out, p) x =
      give_up env.duration_seconds task (text "Task execution timeout")
        (clean_up_timeout env task p) x
  conclude task (raised (failure message), p) x =
      give_up env.duration_seconds task (text "Execution error: " ++ message)
        (clean_up_exception env task p) x

  unfoldable pub execute_in_docker : Task → TaskExecutor → Report × TaskExecutor
  execute_in_docker task x =
      conclude task
        (try_in_docker env task (record {
          docker_manager = x.docker_manager;
          created_container = false;
          workspace_volume = none;
        }))
        x

  -- What a registered handler does is a parameter.
  module _ (handler : Text → Task → TaskExecutor → Attempt Report × TaskExecutor) where
    abbrev pub by_handler : Task → Attempt Report × TaskExecutor → Report × TaskExecutor
    by_handler task (returned report, x) = (report, x)
    by_handler task (raised e, x) =
        let error_msg : Text = text "Task execution error: " ++ str_of e in
        (
          record {
            status = failed;
            output = none;
            exit_code = none;
            error = some error_msg;
            duration_seconds = none;
          },
          record x { task_queue = mark_failed task.task_id error_msg none x.task_queue },
        )

    unfoldable pub execute_task : Task → TaskExecutor → Report × TaskExecutor
    execute_task task x =
        let lang : Text = lower task.language in
        if is_member lang x.execution_handlers
        then by_handler task (handler lang task x)
        else execute_in_docker task x

-- The task is scheduled, and followed under its id.
abbrev pub schedule : Task → TaskExecutor → TaskExecutor
schedule task x = record x {
  execution_tasks = without task.task_id x.execution_tasks ++ task.task_id ∷ [];
}

-- A round with the answer of `dequeue`.
abbrev pub by_next :
    (rest : TaskExecutor → List Task × TaskExecutor)
    → TaskExecutor
    → Option Task × TaskQueue
    → List Task × TaskExecutor
by_next rest x (none, q) = ([], record x { task_queue = q })
by_next rest x (some task, q) =
    let (tasks, filled) = rest (schedule task (record x { task_queue = q })) in
    (task ∷ tasks, filled)

-- The inner loop of `start_executor`, which gives the tasks that it schedules: each round takes one
-- off the queue.
unfoldable pub fill : (rounds max_concurrent : ℕ) → TaskExecutor → List Task × TaskExecutor
fill zero max_concurrent x = ([], x)
fill (suc rounds) max_concurrent x =
    if ltb (length x.execution_tasks) max_concurrent
    then by_next (fill rounds max_concurrent) x (dequeue x.task_queue)
    else ([], x)

-- "Execute up to max_concurrent tasks": one round for each task, and one more.
abbrev pub schedule_tasks : (max_concurrent : ℕ) → TaskExecutor → List Task × TaskExecutor
schedule_tasks max_concurrent x = fill (suc (length x.task_queue.queue)) max_concurrent x

-- The done callback, and "Clean up completed execution tasks".
abbrev pub forget : (task_id : Text) → TaskExecutor → TaskExecutor
forget task_id x = record x { execution_tasks = without task_id x.execution_tasks }

abbrev pub stop_executor : TaskExecutor → TaskExecutor
stop_executor x = record x { running = false }

-- The cancelled coroutine is stopped where it waits.
unfoldable pub cancel_execution : (task_id : Text) → TaskExecutor → Bool × TaskExecutor
cancel_execution task_id x =
    let (cancelled, q) = cancel_task task_id x.task_queue in
    (cancelled, forget task_id (record x { task_queue = q }))
