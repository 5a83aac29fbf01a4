-- ===== src/Database/Workers.antt =====
-- coordinator/database.py, "WORKER OPERATIONS" and the wrappers for a worker's status.
use the_grid_x.Base.{
  ℕ, pos, Bool, false, Option, none, some, Text, Dict, lookup, insert, modify, if◌then◌else◌,
  is_some, is_empty, not, ◌&&◌,
}
use the_grid_x.Utils.{validate_uuid}
use the_grid_x.Database.Schema.{
  Result, ok, raise, value_error, Caps, Worker, WorkerStatus, offline, Restriction, Db,
}
use the_grid_x.Database.Auth.{db_register_user_auth}

-- `ON CONFLICT(id) DO UPDATE SET ip, caps, status, last_heartbeat`: a known worker keeps its owner.
unfoldable pub db_upsert_worker :
    (now : ℕ) (worker_id ip : Text) (caps : Caps) (status : WorkerStatus)
    → (owner_id auth_token : Text) → Db
    → Result Db
unfolding db_register_user_auth
db_upsert_worker now worker_id ip caps status owner_id auth_token db =
    let new : Worker = record {
      owner_id = owner_id;
      ip = ip;
      caps = caps;
      status = status;
      auth_token = none;
      last_heartbeat = some now;
      registered_at = now;
      jobs_completed = 0;
      credits_earned = pos 0;
      restriction = none;
    } in
    let old =
      modify worker_id
        (λ w. record w { ip = ip; caps = caps; status = status; last_heartbeat = some now })
        db.workers in
    let rows =
      if is_some (lookup worker_id db.workers) then old else insert worker_id new db.workers in
    let written : Db = record db { workers = rows } in
    if validate_uuid worker_id
    then ok (
        if not (is_empty auth_token) && not (is_empty owner_id)
        then (db_register_user_auth now owner_id auth_token written).0
        else written)
    else raise value_error

unfoldable pub db_list_workers : Db → Dict Worker
db_list_workers db = db.workers

unfoldable pub db_get_worker : Text → Db → Option Worker
db_get_worker worker_id db = if validate_uuid worker_id then lookup worker_id db.workers else none

-- The heartbeat is refreshed too.
unfoldable pub db_set_worker_status : (now : ℕ) → Text → WorkerStatus → Db → Db
db_set_worker_status now worker_id status db =
    if validate_uuid worker_id
    then record db {
      workers =
          modify worker_id (λ w. record w { status = status; last_heartbeat = some now })
            db.workers;
    }
    else db

unfoldable pub db_set_worker_offline : Text → Db → Db
db_set_worker_offline worker_id db =
    if validate_uuid worker_id
    then record db { workers = modify worker_id (λ w. record w { status = offline }) db.workers }
    else db

unfoldable pub db_set_worker_restriction : Text → Option Restriction → Db → Bool × Db
db_set_worker_restriction worker_id restriction db =
    if validate_uuid worker_id
    then (
      is_some (lookup worker_id db.workers),
      record db {
        workers = modify worker_id (λ w. record w { restriction = restriction }) db.workers;
      },
    )
    else (false, db)
