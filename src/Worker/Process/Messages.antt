-- ===== src/Worker/Process/Messages.antt =====
-- worker/main.py: one message in the message loop of `run_worker`.
use the_grid_x.Base.{
  Bool, true, false, not, some, List, [], ◌∷◌, ◌++◌, take, Text, text, is_empty, if◌then◌else◌,
}
use the_grid_x.State.{Message, assign_job, hello_ack, auth_error, terminated, broadcast}
use the_grid_x.Worker.Queue.{TaskQueue}
use the_grid_x.Worker.Adapter.{AssignedJob, handle_assign_job}
use the_grid_x.Worker.Process.Connecting.{Connection, note}

-- `started` is the ids of the "job_started" messages that were sent, and `notices` the calls of the
-- callback.
pub record HybridWorker : Type 0 where
  pub connection : Connection
  pub task_queue : TaskQueue
  pub started : List Text
  pub has_callback : Bool
  pub notices : List (Text × Text)

abbrev pub call_back : (msg_type message : Text) → HybridWorker → HybridWorker
call_back msg_type message w =
    if w.has_callback then record w { notices = w.notices ++ (msg_type, message) ∷ [] } else w

-- `f"ID: {job_id[:8]}..."`
abbrev pub short_id : Text → Text
short_id job_id = text "ID: " ++ (take 8 job_id ++ text "...")

module _ (timestamp : Text) where
  -- "assign_job"
  unfoldable pub take_job : AssignedJob → HybridWorker → HybridWorker
  take_job job w = record w {
    connection =
        note timestamp (text "Job Completed") (short_id job.job_id)
          (note timestamp (text "Job Assigned") (short_id job.job_id) w.connection);
    started = w.started ++ job.job_id ∷ [];
    task_queue = handle_assign_job job w.task_queue;
  }

  -- "terminated"
  abbrev pub be_terminated : (message : Text) → HybridWorker → HybridWorker
  be_terminated message w =
      let noted : Connection = note timestamp (text "Terminated") message w.connection in
      call_back (text "terminated") message
        (record w { connection = record noted { terminated = true } })

  -- "Check if paused" stands at the end of each round but that of "hello_ack".
  abbrev pub unless_paused : HybridWorker → Bool × HybridWorker
  unless_paused w = (not w.connection.paused, w)

  -- Whether the loop goes on, and the worker. `goodbye` is the text that a "terminated" brings.
  unfoldable pub receive_message : (goodbye : Text) → Message → HybridWorker → Bool × HybridWorker
  receive_message goodbye (assign_job job_id kind script cpus memory_mb timeout_s) w =
      unless_paused (
        take_job
          (record { job_id = job_id; script = script; kind = kind; timeout_s = some timeout_s }) w)
  receive_message goodbye (hello_ack worker_id) w = (true, w)
  receive_message goodbye (auth_error error) w = unless_paused w
  receive_message goodbye terminated w = (false, be_terminated goodbye w)
  receive_message goodbye (broadcast message) w =
      unless_paused (if is_empty message then w else call_back (text "broadcast") message w)
