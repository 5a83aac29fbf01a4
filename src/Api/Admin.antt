-- ===== src/Api/Admin.antt =====
-- coordinator/main.py: the endpoints for administrators.
use the_grid_x.Base.{
  ℕ, pos, Bool, true, false, Option, none, some, Text, text, strip, is_empty, lookup, insert,
  is_some, if◌then◌else◌,
}
use the_grid_x.Utils.{validate_uuid, sanitize_text}
use the_grid_x.Database.{
  Worker, Restriction, banned, suspended, offline, db_get_worker, db_set_worker_restriction,
}
use the_grid_x.State.{State, Entry}
use the_grid_x.Registry.{disconnect_worker, broadcast_to_all_workers}
use the_grid_x.Api.Request.{bad_request, not_found, Response, answer, http_error}

module _ (delivers : ℕ → Bool) where
  unfoldable pub admin_disconnect_worker : Text → State → Response Text × State
  admin_disconnect_worker worker_id s =
      let (done, s') = disconnect_worker delivers worker_id s in
      if validate_uuid worker_id
      then ((if done then answer worker_id else http_error not_found), s')
      else (http_error bad_request, s)

-- `INSERT INTO workers … ON CONFLICT(id) DO NOTHING`, from a connected worker.
abbrev pub adopted_row : (now : ℕ) → Entry → Worker
adopted_row now entry = record {
  owner_id = entry.owner_id;
  ip = text "unknown";
  caps = entry.caps;
  status = offline;
  auth_token = none;
  last_heartbeat = some now;
  registered_at = now;
  jobs_completed = 0;
  credits_earned = pos 0;
  restriction = none;
}

unfoldable pub ensure_worker_exists_for_restriction : (now : ℕ) → Text → State → Bool × State
ensure_worker_exists_for_restriction now worker_id s =
    let adopt = λ (entry : Entry).
      if is_some (lookup worker_id s.db.workers)
      then s.db
      else record s.db { workers = insert worker_id (adopted_row now entry) s.db.workers } in
    if is_some (db_get_worker worker_id s.db)
    then (true, s)
    else elim (lookup worker_id s.workers_ws) [
      | none ↦ (false, s)
      | some entry ↦ (true, record s { db = adopt entry })
    ]

abbrev pub restricted : Text → Option Restriction → State → State
restricted worker_id r s = record s { db = (db_set_worker_restriction worker_id r s.db).1 }

module _ (delivers : ℕ → Bool) (now : ℕ) where
  -- `admin_ban_worker` and `admin_suspend_worker` differ in the restriction alone.
  unfoldable pub restrict_worker : Restriction → Text → State → Response Text × State
  restrict_worker r worker_id s =
      let (exists, s') = ensure_worker_exists_for_restriction now worker_id s in
      if validate_uuid worker_id
      then (if exists
          then (
            answer worker_id,
            restricted worker_id (some r) (disconnect_worker delivers worker_id s').1,
          )
          else (http_error not_found, s'))
      else (http_error bad_request, s)

  unfoldable pub admin_ban_worker : Text → State → Response Text × State
  admin_ban_worker = restrict_worker banned

  unfoldable pub admin_suspend_worker : Text → State → Response Text × State
  admin_suspend_worker = restrict_worker suspended

unfoldable pub admin_unsuspend_worker : (now : ℕ) → Text → State → Response Text × State
admin_unsuspend_worker now worker_id s =
    let (exists, s') = ensure_worker_exists_for_restriction now worker_id s in
    if validate_uuid worker_id
    then (if exists
        then (answer worker_id, restricted worker_id none s')
        else (http_error not_found, s'))
    else (http_error bad_request, s)

module _ (is_printable : ℕ → Bool) (delivers : ℕ → Bool) where
  unfoldable pub admin_broadcast : (message : Text) → State → Response ℕ × State
  admin_broadcast message s =
      let (count, s') =
        broadcast_to_all_workers delivers (sanitize_text is_printable (strip message) 2000) s in
      if is_empty (strip message) then (http_error bad_request, s) else (answer count, s')
