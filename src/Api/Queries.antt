-- ===== src/Api/Queries.antt =====
-- coordinator/main.py: the job, worker, credit and status endpoints other than `submit_job`.
use the_grid_x.Base.{
  ℕ, ℤ, pos, max_ℤ, min_ℤ, Bool, true, false, not, ◌&&◌, ◌||◌, Option, none, some, List, Text, text,
  is_empty, Dict, modify, length, keep, if◌then◌else◌, or_else,
}
use the_grid_x.Utils.{Value, str, validate_uuid, validate_user_id, sanitize_string}
use the_grid_x.Database.{
  Db, Job, Worker, WorkerStatus, idle, offline, Caps, ok, raise, db_get_job, db_list_jobs_by_user,
  db_list_workers, db_upsert_worker,
}
use the_grid_x.Credits.{Rates, ensure_user, get_balance}
use the_grid_x.State.{State}
use the_grid_x.Api.Request.{
  bad_request, not_found, internal_error, Response, answer, http_error, is_truthy,
}

module _ (is_printable : ℕ → Bool) where
  unfoldable pub list_jobs : Option Text → ℤ → Db → Response (List (Text × Job))
  list_jobs none limit db = http_error bad_request
  list_jobs (some user_id) limit db =
      if is_empty user_id || not (validate_user_id (str user_id))
      then http_error bad_request
      else answer
          (db_list_jobs_by_user is_printable user_id (min_ℤ (max_ℤ (pos 1) limit) (pos 100)) db)

unfoldable pub get_job : Text → Db → Response Job
get_job job_id db =
    if validate_uuid job_id
    then elim (db_get_job job_id db) [ none ↦ http_error not_found | some job ↦ answer job ]
    else http_error bad_request

unfoldable pub list_workers : Db → Dict Worker
list_workers db = db_list_workers db

-- The body of a registration; `ip` and `owner_id` are none where the key is missing. An id that is
-- no string makes `re.match` raise TypeError.
pub record Registration : Type 0 where
  pub id : Value
  pub caps : Caps
  pub ip : Option Value
  pub owner_id : Option Value

module _ (is_printable : ℕ → Bool) (to_str : Value → Text) (now : ℕ) where
  unfoldable pub register_known : Text → Registration → State → Response Text × State
  register_known worker_id body s =
      let ip =
        sanitize_string is_printable to_str (or_else body.ip (str (text "http-worker"))) 255 in
      let owner_id =
        sanitize_string is_printable to_str (or_else body.owner_id (str (text ""))) 64 in
      if not (is_empty owner_id) && not (validate_user_id (str owner_id))
      then (http_error bad_request, s)
      else elim (db_upsert_worker now worker_id ip body.caps idle owner_id (text "") s.db) [
        | raise _ ↦ (http_error internal_error, s)
        | ok db' ↦ (answer worker_id, record s { db = db' })
      ]

  unfoldable pub register_id : Value → Registration → State → Response Text × State
  register_id (str worker_id) body s =
      if validate_uuid worker_id
      then register_known worker_id body s
      else (http_error bad_request, s)
  register_id _ body s = (http_error internal_error, s)

  unfoldable pub register_worker_http : Registration → State → Response Text × State
  register_worker_http body s =
      if is_truthy body.id then register_id body.id body s else (http_error bad_request, s)

-- `heartbeat_path`; `heartbeat_body` is the same for an id in the body.
unfoldable pub heartbeat_path : (now : ℕ) → Text → State → Response ℕ × State
heartbeat_path now worker_id s =
    let beaten : Db = record s.db {
      workers = modify worker_id (λ w. record w { last_heartbeat = some now }) s.db.workers;
    } in
    if validate_uuid worker_id
    then (answer now, record s { db = beaten })
    else (http_error bad_request, s)

unfoldable pub heartbeat_body : (now : ℕ) → Value → State → Response ℕ × State
heartbeat_body now (str worker_id) s =
    if is_empty worker_id then (http_error bad_request, s) else heartbeat_path now worker_id s
heartbeat_body now id s =
    (if is_truthy id then http_error internal_error else http_error bad_request, s)

unfoldable pub get_credits : Rates → (now : ℕ) → Text → State → Response ℤ × State
get_credits rates now user_id s =
    let db' = (ensure_user rates now user_id none s.db).1 in
    if validate_user_id (str user_id)
    then (answer (get_balance user_id db'), record s { db = db' })
    else (http_error bad_request, s)

abbrev pub is_active : WorkerStatus → Bool
is_active offline = false
is_active _ = true

pub record Status : Type 0 where
  pub total : ℕ
  pub active : ℕ
  pub queue_size : ℕ

unfoldable pub get_status : State → Status
get_status s = record {
  total = length (db_list_workers s.db);
  active = length (keep (λ r. is_active r.1.status) (db_list_workers s.db));
  queue_size = length s.job_queue;
}
