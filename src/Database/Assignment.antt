-- ===== src/Database/Assignment.antt =====
-- coordinator/database.py, "ATOMIC OPERATIONS" and the wrappers over them: a job is assigned to a
-- worker, runs, and completes.
use the_grid_x.Base.{
  ℕ, ◌+◌, ℤ, pos, negsuc, leb_ℤ, Bool, true, false, Option, none, some, Text, lookup, modify,
  if◌then◌else◌, ◌&&◌, ◌==◌,
}
use the_grid_x.Utils.{validate_uuid}
use the_grid_x.Database.Schema.{
  ok, raise, Job, JobStatus, queued, running, completed, failed, Worker, idle, busy, Db,
}
use the_grid_x.Database.Jobs.{db_update_job_status}

abbrev pub is_queued : JobStatus → Bool
is_queued queued = true
is_queued _ = false

-- `exit_code == 0`
abbrev pub is_zero : ℤ → Bool
is_zero (pos n) = n == 0
is_zero (negsuc n) = false

abbrev pub final_status : ℤ → JobStatus
final_status exit_code = if is_zero exit_code then completed else failed

abbrev pub assigned_row : (now : ℕ) → Text → Job → Job
assigned_row now worker_id job = record job {
  worker_id = some worker_id;
  status = running;
  started_at = some now;
}

unfoldable pub db_assign_job_to_worker : (now : ℕ) (job_id worker_id : Text) → Db → Bool × Db
db_assign_job_to_worker now job_id worker_id db =
    let assigned : Db = record db {
      jobs = modify job_id (assigned_row now worker_id) db.jobs;
      workers = modify worker_id (λ w. record w { status = busy }) db.workers;
    } in
    elim (lookup job_id db.jobs) [
      | none ↦ (false, db)
      | some job ↦ if is_queued job.status then (true, assigned) else (false, db)
    ]

-- The columns that a completion sets.
abbrev pub complete_row : (now : ℕ) (stdout stderr : Text) (exit_code : ℤ) → Job → Job
complete_row now stdout stderr exit_code job = record job {
  status = final_status exit_code;
  completed_at = some now;
  stdout = stdout;
  stderr = stderr;
  exit_code = some exit_code;
}

abbrev pub release_row : (exit_code : ℤ) → Worker → Worker
release_row exit_code w =
    if is_zero exit_code
    then record w { status = idle; jobs_completed = w.jobs_completed + 1 }
    else record w { status = idle }

-- SQLite binds integers of 64 bits; with any other `execute` raises OverflowError, which the caller
-- turns into False.
unfoldable pub is_bindable : ℤ → Bool
is_bindable z = leb_ℤ (negsuc 9223372036854775807) z && leb_ℤ z (pos 9223372036854775807)

unfoldable pub db_complete_job :
    (now : ℕ) (job_id worker_id stdout stderr : Text) (exit_code : ℤ) → Db → Bool × Db
db_complete_job now job_id worker_id stdout stderr exit_code db =
    let done : Db = record db {
      jobs = modify job_id (complete_row now stdout stderr exit_code) db.jobs;
      workers = modify worker_id (release_row exit_code) db.workers;
    } in
    if is_bindable exit_code then (true, done) else (false, db)

unfoldable pub db_set_job_assigned : (now : ℕ) (job_id worker_id : Text) → Db → Bool × Db
db_set_job_assigned now job_id worker_id db =
    if validate_uuid job_id && validate_uuid worker_id
    then db_assign_job_to_worker now job_id worker_id db
    else (false, db)

unfoldable pub db_set_job_running : (now : ℕ) → Text → Db → Db
unfolding db_update_job_status
db_set_job_running now job_id db =
    elim (db_update_job_status job_id running (λ job. record job { started_at = some now }) db) [
      | ok db' ↦ db'
      | raise _ ↦ db
    ]

-- The `worker_id` column of a job, if there is one that passes `validate_uuid`.
abbrev pub recorded_worker : Option Job → Option Text
recorded_worker none = none
recorded_worker (some job) = elim job.worker_id [
  | none ↦ none
  | some w ↦ if validate_uuid w then some w else none
]

unfoldable pub db_set_job_completed :
    (now : ℕ) (job_id stdout stderr : Text) (exit_code : ℤ) → Db → Bool × Db
unfolding db_complete_job
db_set_job_completed now job_id stdout stderr exit_code db =
    let alone : Db = record db {
      jobs = modify job_id (complete_row now stdout stderr exit_code) db.jobs;
    } in
    if validate_uuid job_id
    then (elim (recorded_worker (lookup job_id db.jobs)) [
      | some w ↦ db_complete_job now job_id w stdout stderr exit_code db
      | none ↦ if is_bindable exit_code then (true, alone) else (false, db)
    ])
    else (false, db)
