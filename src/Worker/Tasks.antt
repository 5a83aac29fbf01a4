-- ===== src/Worker/Tasks.antt =====
-- worker/task_queue.py: `Task` and its enumerations. A duration counts ten-thousandths of a second.
use the_grid_x.Base.{ℕ, Option, none, Text}

pub data TaskPriority : Type 0 where
  low normal high urgent : TaskPriority

-- `priority.value`
abbrev pub value : TaskPriority → ℕ
value low = 1
value normal = 2
value high = 3
value urgent = 4

pub data TaskStatus : Type 0 where
  pending queued running completed failed cancelled : TaskStatus

-- What the executor reads of the nested dict; none where a key is missing.
pub record Requirements : Type 0 where
  pub cores : Option ℕ
  pub total_gb : Option ℕ
  pub gpu_count : Option ℕ

-- A dict in which each key may be missing.
pub record TaskResult : Type 0 where
  pub output : Option Text
  pub error : Option Text
  pub duration_seconds : Option ℕ

-- The code changes a task in place. As a value it stands for the object as long as the queue holds
-- the object once: `IsApart` of Valid.
pub record Task : Type 0 where
  pub task_id : Text
  pub code : Text
  pub language : Text
  pub requirements : Requirements
  pub priority : TaskPriority
  pub timeout : ℕ
  pub status : TaskStatus
  pub assigned_worker : Option Text
  pub result : Option TaskResult
  pub error : Option Text

abbrev pub no_result : TaskResult
no_result = record { output = none; error = none; duration_seconds = none }
