-- ===== src/Scheduler/Watchdog.antt =====
-- coordinator/scheduler.py: one check of `watchdog_loop`.
use the_grid_x.Base.{
  ℕ, ◌-◌, Bool, true, ◌||◌, ltb, ◌==◌, Option, none, some, List, [], ◌∷◌, ◌++◌, Text, is_empty,
  Dict, lookup, keep, if◌then◌else◌, is_some, modify,
}
use the_grid_x.Database.{Db, Job, Worker, running, offline, has_status, requeue_job}
use the_grid_x.State.{State}
use the_grid_x.Registry.{get_worker_ws}

-- `not last or now_ts - last > heartbeat_timeout`. Where the clock has gone back the difference is
-- negative, and not above the timeout.
abbrev pub is_stale : (now heartbeat_timeout : ℕ) → Option ℕ → Bool
is_stale now heartbeat_timeout none = true
is_stale now heartbeat_timeout (some last) = last == 0 || ltb heartbeat_timeout (now - last)

abbrev pub last_heartbeat_of : Option Worker → Option ℕ
last_heartbeat_of none = none
last_heartbeat_of (some w) = w.last_heartbeat

-- "Mark worker offline and requeue"
unfoldable pub requeue_from : (job_id worker_id : Text) → State → State
requeue_from job_id worker_id s = record s {
  db = requeue_job job_id (record s.db {
    workers = modify worker_id (λ w. record w { status = offline }) s.db.workers;
  });
  job_queue = s.job_queue ++ job_id ∷ [];
}

-- One running job, with the worker that its row named when the check began.
unfoldable pub check_job : (now heartbeat_timeout : ℕ) (job_id : Text) → Option Text → State → State
check_job now heartbeat_timeout job_id none s = s
check_job now heartbeat_timeout job_id (some worker_id) s =
    if is_empty worker_id || is_some (get_worker_ws worker_id s.workers_ws)
    then s
    else if is_stale now heartbeat_timeout (last_heartbeat_of (lookup worker_id s.db.workers))
    then requeue_from job_id worker_id s
    else s

unfoldable pub check_jobs : (now heartbeat_timeout : ℕ) → List (Text × Job) → State → State
check_jobs now heartbeat_timeout [] s = s
check_jobs now heartbeat_timeout ((job_id, job) ∷ rows) s =
    check_jobs now heartbeat_timeout rows (check_job now heartbeat_timeout job_id job.worker_id s)

-- `SELECT id, worker_id FROM jobs WHERE status='running'`
abbrev pub running_jobs : Db → Dict Job
running_jobs db = keep (λ r. has_status (running ∷ []) r.1.status) db.jobs

unfoldable pub watchdog : (now heartbeat_timeout : ℕ) → State → State
watchdog now heartbeat_timeout s = check_jobs now heartbeat_timeout (running_jobs s.db) s
