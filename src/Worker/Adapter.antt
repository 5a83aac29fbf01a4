-- ===== src/Worker/Adapter.antt =====
-- worker/ws_worker_adapter.py: `handle_assign_job`.
pub mod Reports
pub mod Cancelled
use the_grid_x.Base.{
  ℕ, Bool, true, false, Option, none, some, or_else, List, [], ◌∷◌, Text, is_empty, if◌then◌else◌,
}
use the_grid_x.State.{Message, assign_job}
use the_grid_x.Worker.Tasks.{
  Requirements, Task, TaskResult, TaskStatus, normal, pending, queued, running, completed, failed,
  cancelled, no_result,
}
use the_grid_x.Worker.Queue.{TaskQueue, enqueue, get_task}

-- What is read of `msg["job"]`; a "timeout_s" that is missing is none.
pub record AssignedJob : Type 0 where
  pub job_id : Text
  pub script : Text
  pub kind : Text
  pub timeout_s : Option ℕ

-- One core, whatever the job's limits are.
unfoldable pub task_of : AssignedJob → Task
task_of job = record {
  task_id = job.job_id;
  code = job.script;
  language = job.kind;
  requirements = record { cores = some 1; total_gb = none; gpu_count = none };
  priority = normal;
  timeout = or_else job.timeout_s 30;
  status = pending;
  assigned_worker = none;
  result = none;
  error = none;
}

-- The answer of `enqueue` is not looked at.
unfoldable pub handle_assign_job : AssignedJob → TaskQueue → TaskQueue
handle_assign_job job q = (enqueue (task_of job) q).1

-- The message "job_result".
pub record JobResult : Type 0 where
  pub job_id : Text
  pub exit_code : ℕ
  pub stdout : Text
  pub stderr : Text
  pub duration_seconds : Option ℕ

-- `a or b`
abbrev pub or_text : Option Text → Text → Text
or_text none b = b
or_text (some a) b = if is_empty a then b else a

abbrev pub completed_result : (task_id : Text) → TaskResult → JobResult
completed_result task_id r = record {
  job_id = task_id;
  exit_code = 0;
  stdout = or_else r.output [];
  stderr = [];
  duration_seconds = r.duration_seconds;
}

unfoldable pub failed_result : (task_id : Text) → Option Text → TaskResult → JobResult
failed_result task_id error r = record {
  job_id = task_id;
  exit_code = 1;
  stdout = [];
  stderr = or_text error (or_else r.error []);
  duration_seconds = r.duration_seconds;
}

-- What is sent of a task, by its status.
unfoldable pub result_of : (task_id : Text) → Task → TaskStatus → Option JobResult
result_of task_id t completed = some (completed_result task_id (or_else t.result no_result))
result_of task_id t failed = some (failed_result task_id t.error (or_else t.result no_result))
result_of task_id t cancelled = some (failed_result task_id t.error (or_else t.result no_result))
result_of task_id t pending = none
result_of task_id t queued = none
result_of task_id t running = none

-- One round of `_monitor_and_send`; none where it sleeps and goes on.
unfoldable pub poll : (task_id : Text) → TaskQueue → Option JobResult
poll task_id q = elim (get_task task_id q) [ none ↦ none | some t ↦ result_of task_id t t.status ]

-- The rounds, each with the queue as it then is: the first that sends ends the loop.
unfoldable pub monitor_and_send : (task_id : Text) → List TaskQueue → Option JobResult
monitor_and_send task_id [] = none
monitor_and_send task_id (q ∷ rounds) = elim (poll task_id q) [
  | some sent ↦ some sent
  | none ↦ monitor_and_send task_id rounds
]

-- The job as the coordinator's message has it.
unfoldable pub received : Message → Option AssignedJob
received (assign_job job_id kind script cpus memory_mb timeout_s) =
    some (record { job_id = job_id; script = script; kind = kind; timeout_s = some timeout_s })
received _ = none
