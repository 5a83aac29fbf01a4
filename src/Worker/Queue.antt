-- ===== src/Worker/Queue.antt =====
-- worker/task_queue.py: `TaskQueue`. Each method runs under the queue's lock. A `Task` is a mutable
-- object in the code and a value here, which is the same as long as no object stands in two of the
-- three containers: where each task that is enqueued is a new object, as `handle_assign_job` makes
-- it. Valid states this as a hypothesis.
use the_grid_x.Base.{
  ℕ, ◌+◌, Bool, true, false, leb, Option, none, some, is_some, List, [], ◌∷◌, ◌++◌, length, Text,
  text_eq, Dict, lookup, insert, erase, by_key, order_by, if◌then◌else◌,
}
use the_grid_x.Worker.Tasks.{
  Task, TaskResult, TaskStatus, value, queued, running, completed, failed,
}

-- `available` is the event `_queue_event`.
pub record TaskQueue : Type 0 where
  pub max_queue_size : ℕ
  pub queue : List Task
  pub active_tasks : Dict Task
  pub completed_tasks : Dict Task
  pub available : Bool

abbrev pub new_queue : ℕ → TaskQueue
new_queue max_queue_size = record {
  max_queue_size = max_queue_size;
  queue = [];
  active_tasks = [];
  completed_tasks = [];
  available = false;
}

abbrev pub priority_value : Task → ℕ
priority_value task = value task.priority

-- `task.status = status`
abbrev pub with_status : TaskStatus → Task → Task
with_status status task = record task { status = status }

unfoldable pub enqueue : Task → TaskQueue → Bool × TaskQueue
enqueue task q = if leb q.max_queue_size (length q.queue) then (false, q) else (
  true,
  record q {
    queue = order_by (by_key priority_value) (q.queue ++ with_status queued task ∷ []);
    available = true;
  },
)

-- The task goes from the queue to the active ones.
abbrev pub start : Task → List Task → TaskQueue → TaskQueue
start task rest q = record q {
  queue = rest;
  active_tasks = insert task.task_id (with_status running task) q.active_tasks;
}

unfoldable pub dequeue : TaskQueue → Option Task × TaskQueue
dequeue q = elim q.queue [
  | [] ↦ (none, record q { available = false })
  | task ∷ rest ↦ (some (with_status running task), start task rest q)
]

-- The first task with the id, and the queue without it.
unfoldable pub remove_first : Text → List Task → Option (Task × List Task)
remove_first task_id [] = none
remove_first task_id (task ∷ rest) =
    let later : Option (Task × List Task) = elim (remove_first task_id rest) [
      | none ↦ none
      | some found ↦ some (found.0, task ∷ found.1)
    ] in
    if text_eq task.task_id task_id then some (task, rest) else later

unfoldable pub mark_running : Text → TaskQueue → Bool × TaskQueue
mark_running task_id q = elim (remove_first task_id q.queue) [
  | none ↦ (false, q)
  | some found ↦ (true, start found.0 found.1 q)
]

-- The task goes from the active ones to the completed ones, where it is active.
unfoldable pub finish : Text → (Task → Task) → TaskQueue → TaskQueue
finish task_id set q = elim (lookup task_id q.active_tasks) [
  | none ↦ q
  | some task ↦ record q {
    active_tasks = erase task_id q.active_tasks;
    completed_tasks = insert task_id (set task) q.completed_tasks;
  }
]

abbrev pub completed_task : Option TaskResult → Task → Task
completed_task result task = record task { status = completed; result = result }

unfoldable pub mark_completed : Text → Option TaskResult → TaskQueue → TaskQueue
mark_completed task_id result q = finish task_id (completed_task result) q

abbrev pub failed_task : Text → Option TaskResult → Task → Task
failed_task error none task = record task { status = failed; error = some error }
failed_task error (some result) task = record task {
  status = failed;
  error = some error;
  result = some result;
}

unfoldable pub mark_failed : Text → (error : Text) → Option TaskResult → TaskQueue → TaskQueue
mark_failed task_id error result q = finish task_id (failed_task error result) q

-- A cancelled task is kept nowhere.
unfoldable pub cancel_task : Text → TaskQueue → Bool × TaskQueue
cancel_task task_id q = elim (remove_first task_id q.queue) [
  | some found ↦ (true, record q { queue = found.1 })
  | none ↦
      if is_some (lookup task_id q.active_tasks)
      then (true, record q { active_tasks = erase task_id q.active_tasks })
      else (false, q)
]

unfoldable pub find_task : Text → List Task → Option Task
find_task task_id [] = none
find_task task_id (task ∷ rest) =
    if text_eq task.task_id task_id then some task else find_task task_id rest

unfoldable pub get_task : Text → TaskQueue → Option Task
get_task task_id q = elim (find_task task_id q.queue) [
  | some task ↦ some task
  | none ↦ elim (lookup task_id q.active_tasks) [
    | some task ↦ some task
    | none ↦ lookup task_id q.completed_tasks
  ]
]

abbrev pub get_queue_size : TaskQueue → ℕ
get_queue_size q = length q.queue

abbrev pub get_active_count : TaskQueue → ℕ
get_active_count q = length q.active_tasks

pub record QueueStats : Type 0 where
  pub queue_size : ℕ
  pub active_tasks : ℕ
  pub completed_tasks : ℕ
  pub total_tasks : ℕ

unfoldable pub get_stats : TaskQueue → QueueStats
get_stats q = record {
  queue_size = length q.queue;
  active_tasks = length q.active_tasks;
  completed_tasks = length q.completed_tasks;
  total_tasks = (length q.queue + length q.active_tasks) + length q.completed_tasks;
}
