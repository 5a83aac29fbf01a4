-- ===== src/Scheduler/Dispatch.antt =====
-- coordinator/scheduler.py: `dispatch`, under its lock. The network decides whether a send
-- succeeds (`delivers`), and the clock is read once.
use the_grid_x.Base.{
  ℕ, Bool, true, false, Option, none, some, List, [], ◌∷◌, ◌++◌, Text, text, strip, is_empty,
  if◌then◌else◌,
}
use the_grid_x.Database.{
  Job, Result, ok, raise, idle, busy, db_get_job, requeue_job, db_set_worker_status,
  db_set_job_assigned,
}
use the_grid_x.State.{State, Message, assign_job}
use the_grid_x.Registry.{get_idle_worker_id, set_worker_busy, set_worker_idle, get_worker_ws}

-- `job_row["language"] or "python"`, and fixed limits.
abbrev pub job_msg : Text → Job → Message
job_msg job_id job =
    assign_job job_id (if is_empty job.language then text "python" else job.language) job.code 1 256
      30

unfoldable pub sent : ℕ → Message → State → State
sent ws message s = record s { outbox = s.outbox ++ (ws, message) ∷ [] }

module _ (now : ℕ) where
  -- "Revert and re-queue"
  unfoldable pub revert : (job_id idle_id : Text) → List Text → State → State
  revert job_id idle_id rest s = record s {
    db = requeue_job job_id (db_set_worker_status now idle_id idle s.db);
    workers_ws = set_worker_idle now idle_id s.workers_ws;
    job_queue = rest ++ job_id ∷ [];
  }

  -- The worker is marked busy and the job assigned to it; the answer of the assignment is not used.
  unfoldable pub mark_assigned : (job_id idle_id : Text) → State → State
  mark_assigned job_id idle_id s = record s {
    db = (db_set_job_assigned now job_id idle_id (db_set_worker_status now idle_id busy s.db)).1;
    workers_ws = set_worker_busy now idle_id s.workers_ws;
  }

module _ (coordinator_owner : Text) (delivers : ℕ → Bool) (now : ℕ) where
  -- The worker has no websocket any more, or the send fails: the job is taken back.
  unfoldable pub deliver :
      (job_id : Text) → Job → (idle_id : Text) → Option ℕ → List Text → State → Bool × State
  deliver job_id job idle_id none rest s = (false, revert now job_id idle_id rest s)
  deliver job_id job idle_id (some ws) rest s =
      if delivers ws
      then (true, sent ws (job_msg job_id job) s)
      else (false, revert now job_id idle_id rest s)

  -- One iteration with the job and the answer of `get_idle_worker_id`. It gives the state, and
  -- whether the loop goes on; `rest` is the queue behind the job.
  unfoldable pub assign :
      (job_id : Text) → Job → Result (Option Text) → List Text → State → Bool × State
  assign job_id job (raise _) rest s = (false, record s { job_queue = rest })
  assign job_id job (ok none) rest s = (false, record s { job_queue = rest ++ job_id ∷ [] })
  assign job_id job (ok (some idle_id)) rest s =
      let marked = mark_assigned now job_id idle_id s in
      deliver job_id job idle_id (get_worker_ws idle_id marked.workers_ws) rest marked

  -- A job that the table does not hold is dropped.
  unfoldable pub dispatch_job : (job_id : Text) → List Text → State → Bool × State
  dispatch_job job_id rest s = elim (db_get_job job_id s.db) [
    | none ↦ (true, s)
    | some job ↦
        assign job_id job (get_idle_worker_id coordinator_owner (strip job.user_id) s.workers_ws)
          rest s
  ]

  -- The `while` loop: each round takes the head of the queue, so it recurs on the queue.
  unfoldable pub dispatch_loop : List Text → State → State
  dispatch_loop [] s = record s { job_queue = [] }
  dispatch_loop (job_id ∷ rest) s =
      let (more, s') = dispatch_job job_id rest s in
      elim more [ true ↦ dispatch_loop rest s' | false ↦ s' ]

  unfoldable pub dispatch : State → State
  dispatch s = dispatch_loop s.job_queue s
