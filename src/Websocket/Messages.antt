-- ===== src/Websocket/Messages.antt =====
-- coordinator/websocket.py: one message in `handle_worker`, and `ws_router`.
use the_grid_x.Base.{ℕ, ℤ, Bool, ◌||◌, Option, none, some, Text, text, text_eq, is_empty, lookup}
use the_grid_x.Database.{WorkerStatus, idle, db_set_worker_status}
use the_grid_x.Credits.{Rates}
use the_grid_x.State.{State, Entry}
use the_grid_x.Registry.{update_worker_last_seen}
use the_grid_x.Scheduler.{dispatch, on_job_started, on_job_result}
use the_grid_x.Websocket.Cleanup.{cleanup}
use the_grid_x.Websocket.Hello.{Greeting, Outcome, continues, closed, failed, handle_hello}

-- The messages, by "type"; JSON that is no object has no `get`. A `job_id` that is missing or empty is none. `exit_code` is none where
-- `int(…)` raises, and `duration_seconds` where it is missing or no number.
pub data Incoming : Type 0 where
  not_json not_object heartbeat job_log unknown : Incoming
  hello : Greeting → Incoming
  job_started : (job_id : Option Text) → Incoming
  job_result :
      (job_id : Option Text) (exit_code : Option ℤ) (stdout stderr : Text)
      → (duration_seconds : Option ℤ) → Incoming

-- `(workers_ws.get(worker_id) or {}).get("status", "idle")`
abbrev pub status_of : Option Entry → WorkerStatus
status_of none = idle
status_of (some entry) = entry.status

module _ (rates : Rates) (coordinator_owner : Text) (delivers : ℕ → Bool) (now : ℕ) where
  -- The messages behind the guard on `worker_id`.
  unfoldable pub handle_known : Text → Incoming → State → Outcome × State
  handle_known worker_id (job_started (some job_id)) s = (continues, on_job_started now job_id s)
  handle_known worker_id (job_result job_id none stdout stderr duration) s = (failed, s)
  handle_known worker_id (job_result none (some exit_code) stdout stderr duration) s =
      (continues, dispatch coordinator_owner delivers now s)
  handle_known worker_id (job_result (some job_id) (some exit_code) stdout stderr duration) s =
      let finished = on_job_result rates now job_id worker_id exit_code stdout stderr duration s in
      (continues, dispatch coordinator_owner delivers now finished)
  handle_known worker_id _ s = (continues, s)

  -- "Keep DB in sync with in-memory status"
  unfoldable pub refresh : Text → State → State
  refresh worker_id s =
      let seen = update_worker_last_seen now worker_id s.workers_ws in
      record s {
        workers_ws = seen;
        db = db_set_worker_status now worker_id (status_of (lookup worker_id seen)) s.db;
      }

  -- What the handler does with a message other than "hello".
  unfoldable pub handle_other : Option Text → Incoming → State → Outcome × Option Text × State
  handle_other none m s = (continues, none, s)
  handle_other (some worker_id) m s =
      let (outcome, s') = handle_known worker_id m (refresh worker_id s) in
      (outcome, some worker_id, s')

  module _ (ws : ℕ) (peer_ip : Text) where
    -- After an accepted hello: "Trigger dispatch".
    abbrev pub after_hello : Outcome × Option Text × State → Outcome × Option Text × State
    after_hello (continues, worker_id, s) =
        (continues, worker_id, dispatch coordinator_owner delivers now s)
    after_hello (closed, worker_id, s) = (closed, worker_id, s)
    after_hello (failed, worker_id, s) = (failed, worker_id, s)

    unfoldable pub handle_message : Incoming → Option Text → State → Outcome × Option Text × State
    handle_message not_json current s = (continues, current, s)
    handle_message not_object current s = (failed, current, s)
    handle_message (hello g) current s =
        after_hello (handle_hello delivers now ws peer_ip g current s)
    handle_message m current s = handle_other current m s

    -- One message from its arrival on: an exception ends the loop, and the cleanup follows.
    unfoldable pub receive : Incoming → Option Text → State → State
    receive m current s =
        let (outcome, worker_id, s') = handle_message m current s in
        elim outcome [ failed ↦ cleanup worker_id s' | _ ↦ s' ]

-- `ws_router`: true where the connection goes to `handle_worker`, false where it is closed.
unfoldable pub ws_router : (path : Text) → Bool
ws_router path =
    text_eq path (text "/ws/worker") || text_eq path (text "/ws/worker/") || is_empty path
