-- ===== src/Scheduler/Results.antt =====
-- coordinator/scheduler.py: `on_job_started` and `on_job_result`. The dispatch that
-- `on_job_result` schedules runs later, as a step of its own.
use the_grid_x.Base.{ℕ, ℤ, Option, none, some, Text, strip}
use the_grid_x.Database.{
  Worker, idle, db_get_worker, db_set_job_running, db_set_job_completed, db_set_worker_status,
}
use the_grid_x.Credits.{Rates, settle_job}
use the_grid_x.State.{State}
use the_grid_x.Registry.{set_worker_idle}

unfoldable pub on_job_started : (now : ℕ) → Text → State → State
on_job_started now job_id s = record s { db = db_set_job_running now job_id s.db }

-- `(worker_row.get("owner_id") or "").strip() if worker_row else None`
abbrev pub owner_of : Option Worker → Option Text
owner_of none = none
owner_of (some row) = some (strip row.owner_id)

unfoldable pub on_job_result :
    Rates
    → (now : ℕ) → (job_id worker_id : Text) (exit_code : ℤ) (stdout stderr : Text)
    → (duration_seconds : Option ℤ) → State
    → State
on_job_result rates now job_id worker_id exit_code stdout stderr duration_seconds s =
    let owner_id = owner_of (db_get_worker worker_id s.db) in
    let settled = settle_job rates now job_id owner_id duration_seconds s.db in
    let finished = (db_set_job_completed now job_id stdout stderr exit_code settled).1 in
    record s {
      db = db_set_worker_status now worker_id idle finished;
      workers_ws = set_worker_idle now worker_id s.workers_ws;
    }
