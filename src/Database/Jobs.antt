-- ===== src/Database/Jobs.antt =====
-- coordinator/database.py, "JOB OPERATIONS": `db_create_job`, `db_get_job`,
-- `db_update_job_status`, and the `UPDATE` by which scheduler.py and websocket.py requeue a job.
use the_grid_x.Base.{
  ℕ, ℤ, pos, max_ℤ, Bool, Option, none, [], Text, lookup, insert, modify, if◌then◌else◌, is_some,
}
use the_grid_x.Utils.{validate_uuid, sanitize_text}
use the_grid_x.Database.Schema.{
  Result, ok, raise, value_error, integrity_error, Job, JobStatus, queued, Db,
}

module _ (is_printable : ℕ → Bool) where
  unfoldable pub db_create_job :
      (now : ℕ) (job_id user_id code language : Text) (timeout_s reserved_cost : ℤ) → Db → Result Db
  db_create_job now job_id user_id code language timeout_s reserved_cost db =
      let clean_code = sanitize_text is_printable code 1_000_000 in
      let clean_user_id = sanitize_text is_printable user_id 64 in
      let row : Job = record {
        user_id = clean_user_id;
        code = clean_code;
        language = language;
        status = queued;
        worker_id = none;
        created_at = now;
        started_at = none;
        completed_at = none;
        stdout = [];
        stderr = [];
        exit_code = none;
        timeout_s = timeout_s;
        cost = max_ℤ (pos 0) reserved_cost;
        duration_seconds = none;
      } in
      if validate_uuid job_id
      then (if is_some (lookup job_id db.jobs)
          then raise integrity_error
          else ok (record db { jobs = insert job_id row db.jobs }))
      else raise value_error

unfoldable pub db_get_job : Text → Db → Option Job
db_get_job job_id db = if validate_uuid job_id then lookup job_id db.jobs else none

-- The columns that `**kwargs` names are set by `set`.
unfoldable pub db_update_job_status : Text → JobStatus → (Job → Job) → Db → Result Db
db_update_job_status job_id status set db =
    if validate_uuid job_id
    then ok (record db {
      jobs = modify job_id (λ job. let row = set job in record row { status = status }) db.jobs;
    })
    else raise value_error

abbrev pub requeued_row : Job → Job
requeued_row job = record job { status = queued; worker_id = none }

-- `UPDATE jobs SET status='queued', worker_id=NULL WHERE id=?`
unfoldable pub requeue_job : Text → Db → Db
requeue_job job_id db = record db { jobs = modify job_id requeued_row db.jobs }
