-- ===== src/Websocket/Cleanup.antt =====
-- coordinator/websocket.py: "Cleanup on disconnect" in `handle_worker`.
use the_grid_x.Base.{◌&&◌, Option, none, some, [], ◌∷◌, ◌++◌, Text, Dict, keep}
use the_grid_x.Database.{Db, Job, running, has_status, is_text, requeue_job, db_set_worker_offline}
use the_grid_x.State.{State}
use the_grid_x.Registry.{unregister_worker_ws}

-- `SELECT id FROM jobs WHERE status='running' AND worker_id=?`
abbrev pub jobs_running_on : Text → Db → Dict Job
jobs_running_on worker_id db =
    keep (λ r. has_status (running ∷ []) r.1.status && is_text r.1.worker_id worker_id) db.jobs

unfoldable pub requeue_all : Dict Job → State → State
requeue_all [] s = s
requeue_all ((job_id, _) ∷ rows) s =
    requeue_all rows
      (record s { db = requeue_job job_id s.db; job_queue = s.job_queue ++ job_id ∷ [] })

unfoldable pub cleanup : Option Text → State → State
cleanup none s = s
cleanup (some worker_id) s =
    let left : State = record s {
      db = db_set_worker_offline worker_id s.db;
      workers_ws = unregister_worker_ws worker_id s.workers_ws;
    } in
    requeue_all (jobs_running_on worker_id left.db) left
