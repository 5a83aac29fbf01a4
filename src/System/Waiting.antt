-- ===== src/System/Waiting.antt =====
-- The handler of coordinator/websocket.py keeps the queue and the registry sound.
use the_grid_x.Base.{
  ℕ, ℤ, ◌≡◌, Bool, true, Option, none, some, Text, Dict, erase, All-modify, All-erase, All-insert,
  inl, inr, Bool-cases, Option-cases,
}
use the_grid_x.Utils.{validate_uuid}
use the_grid_x.Database.{Caps, idle, ok, db_upsert_worker, db_get_worker}
use the_grid_x.Credits.{Rates}
use the_grid_x.State.{State, Entry}
use the_grid_x.Registry.{
  can_execute, unregister_worker_ws, register_worker_ws, update_worker_last_seen,
}
use the_grid_x.Scheduler.{dispatch, on_job_started, on_job_result}
use the_grid_x.Websocket.{
  Greeting, Outcome, continues, closed, failed, authenticate, restriction_of, reject, admit,
  handle_hello, Incoming, not_json, not_object, heartbeat, job_log, unknown, hello, job_started,
  job_result, handle_known, refresh, handle_other, after_hello, handle_message, receive, cleanup,
}
use the_grid_x.System.Pending.{Pending}
use the_grid_x.System.Proper.{IsProper, IsProperRegistry, set_worker_idle-IsProper}
use the_grid_x.System.Dispatching.{jobs-db_set_worker_status, dispatch-NoJobLost}
use the_grid_x.System.Requeue.{cleanup-NoJobLost, requeue_all-registry}
use the_grid_x.System.Handlers.{Result-cases}
use the_grid_x.System.Sound.{
  IsSound, started-Pending, completed-Pending, settled-Pending, jobs-upsert, upsert_valid,
  All-erase-insert,
}

-- The capabilities of a greeting can be read.
abbrev pub IsReadable : Caps → Type 0
IsReadable caps = (can : Bool) × (can_execute caps ≡ ok can)

abbrev pub IsReadableMessage : Incoming → Type 0
IsReadableMessage (hello g) = IsReadable g.caps
IsReadableMessage _ = Unit

cleanup-registry :
    (worker_id : Text) (s : State)
    → (cleanup (some worker_id) s).workers_ws ≡ erase worker_id s.workers_ws
unfolding cleanup unregister_worker_ws
cleanup-registry worker_id s = requeue_all-registry _ _

pub cleanup-IsSound : (o : Option Text) (s : State) → IsSound s → IsSound (cleanup o s)
unfolding cleanup
cleanup-IsSound none s h = h
cleanup-IsSound (some worker_id) s h = (
  cleanup-NoJobLost (some worker_id) s h.0,
  rw (cleanup-registry worker_id s) (All-erase IsProper worker_id s.workers_ws h.1),
)

started-IsSound :
    (now : ℕ) (job_id : Text) (s : State) → IsSound s → IsSound (on_job_started now job_id s)
unfolding on_job_started
started-IsSound now job_id s h = (started-Pending now job_id s.job_queue s.db h.0, h.1)

result-IsSound :
    (rates : Rates) (now : ℕ) (job_id worker_id : Text) (exit_code : ℤ) (stdout stderr : Text)
    → (duration : Option ℤ) (s : State) → IsSound s
    → IsSound (on_job_result rates now job_id worker_id exit_code stdout stderr duration s)
unfolding on_job_result
result-IsSound rates now job_id worker_id exit_code stdout stderr duration s h = (
  rw (jobs-db_set_worker_status now worker_id idle _) (
      completed-Pending now job_id stdout stderr exit_code s.job_queue _
        (settled-Pending rates now job_id _ duration s.job_queue s.db h.0)),
  set_worker_idle-IsProper now worker_id s.workers_ws h.1,
)

-- What a message leaves: a sound state, or one that the cleanup makes sound where the handling raises.
abbrev Handled : Outcome × Option Text × State → Type 0
Handled (continues, worker_id, s) = IsSound s
Handled (closed, worker_id, s) = IsSound s
Handled (failed, worker_id, s) = IsSound (cleanup worker_id s)

module _ (delivers : ℕ → Bool) (now ws : ℕ) (peer_ip : Text) where
  joined-IsProper :
      (worker_id : Text) (g : Greeting) (registry : Dict Entry)
      → validate_uuid worker_id ≡ true
      → IsReadable g.caps
      → IsProperRegistry registry
      → IsProperRegistry (register_worker_ws now worker_id ws g.caps g.owner_id registry)
  unfolding register_worker_ws
  joined-IsProper worker_id g registry valid readable h =
      All-insert IsProper worker_id _ registry (valid, readable) h

  -- An id that the database refuses leaves the registry again.
  refused-IsSound :
      (worker_id : Text) (g : Greeting) (s : State)
      → IsSound s
      → IsSound (
          cleanup (some worker_id) (record s {
            workers_ws = register_worker_ws now worker_id ws g.caps g.owner_id s.workers_ws;
          }))
  unfolding register_worker_ws
  refused-IsSound worker_id g s h = (
    cleanup-NoJobLost (some worker_id) _ h.0,
    rw (cleanup-registry worker_id) (All-erase-insert worker_id _ s.workers_ws h.1),
  )

  admit-Handled :
      (worker_id : Text) (g : Greeting) (s : State)
      → IsReadable g.caps
      → IsSound s
      → let r : Outcome × State = admit delivers now ws peer_ip worker_id g s in
        Handled (r.0, some worker_id, r.1)
  unfolding admit
  admit-Handled worker_id g s readable h =
      elim (Result-cases
        (db_upsert_worker now worker_id peer_ip g.caps idle g.owner_id g.auth_token s.db)) [
          | inr (e, raised) ↦ rw (raised, admit, Handled) (refused-IsSound worker_id g s h)
          | inl (db', written) ↦
              let same =
                jobs-upsert now worker_id peer_ip g.caps idle g.owner_id g.auth_token s.db db'
                  written in
              let valid =
                upsert_valid now worker_id peer_ip g.caps idle g.owner_id g.auth_token s.db db'
                  written in
              let after : Pending s.job_queue db'.jobs
                  × IsProperRegistry
                      (register_worker_ws now worker_id ws g.caps g.owner_id s.workers_ws) =
                (rw same h.0, joined-IsProper worker_id g s.workers_ws valid readable h.1) in
              rw (written, admit, Handled)
                (elim (Bool-cases (delivers ws)) [
                  | inl sent ↦ rw (sent, Handled) after
                  | inr lost ↦ rw (lost, Handled) after
                ])
        ]

  handle_hello-Handled :
      (g : Greeting) (current : Option Text) (s : State)
      → IsReadable g.caps
      → IsSound s
      → Handled (handle_hello delivers now ws peer_ip g current s)
  unfolding handle_hello reject
  handle_hello-Handled g current s readable h = elim (Option-cases (authenticate g s.db)) [
    | inl e ↦ rw (e, handle_hello, Handled) h
    | inr (worker_id, e) ↦
        rw (e, handle_hello, Handled)
          (elim (Option-cases (restriction_of (db_get_worker worker_id s.db))) [
            | inl free ↦ rw (free, Handled) (admit-Handled worker_id g s readable h)
            | inr (r, barred) ↦ rw (barred, Handled) h
          ])
  ]

module _ (rates : Rates) (coordinator_owner : Text) (delivers : ℕ → Bool) (now : ℕ) where
  refresh-IsSound :
      (worker_id : Text) (s : State)
      → IsSound s
      → IsSound (refresh rates coordinator_owner delivers now worker_id s)
  unfolding refresh update_worker_last_seen
  refresh-IsSound worker_id s h = (
    rw (jobs-db_set_worker_status now worker_id _ s.db) h.0,
    All-modify IsProper worker_id _ s.workers_ws (λ j v p. p) h.1,
  )

  dispatch-IsSound : (s : State) → IsSound s → IsSound (dispatch coordinator_owner delivers now s)
  dispatch-IsSound s h = dispatch-NoJobLost coordinator_owner delivers now s h.0 h.1

  handle_known-Handled :
      (worker_id : Text) (m : Incoming) (s : State)
      → IsSound s
      → let r : Outcome × State = handle_known rates coordinator_owner delivers now worker_id m s in
        Handled (r.0, some worker_id, r.1)
  unfolding handle_known
  handle_known-Handled worker_id not_json s h = h
  handle_known-Handled worker_id not_object s h = h
  handle_known-Handled worker_id heartbeat s h = h
  handle_known-Handled worker_id job_log s h = h
  handle_known-Handled worker_id unknown s h = h
  handle_known-Handled worker_id (hello g) s h = h
  handle_known-Handled worker_id (job_started none) s h = h
  handle_known-Handled worker_id (job_started (some id)) s h = started-IsSound now id s h
  handle_known-Handled worker_id (job_result none none out err duration) s h =
      cleanup-IsSound (some worker_id) s h
  handle_known-Handled worker_id (job_result (some id) none out err duration) s h =
      cleanup-IsSound (some worker_id) s h
  handle_known-Handled worker_id (job_result none (some code) out err duration) s h =
      dispatch-IsSound s h
  handle_known-Handled worker_id (job_result (some id) (some code) out err duration) s h =
      dispatch-IsSound _ (result-IsSound rates now id worker_id code out err duration s h)

  handle_other-Handled :
      (o : Option Text) (m : Incoming) (s : State)
      → IsSound s
      → Handled (handle_other rates coordinator_owner delivers now o m s)
  unfolding handle_other
  handle_other-Handled none m s h = h
  handle_other-Handled (some worker_id) m s h =
      handle_known-Handled worker_id m _ (refresh-IsSound worker_id s h)

  module _ (ws : ℕ) (peer_ip : Text) where
    after_hello-Handled :
        (r : Outcome × Option Text × State)
        → Handled r
        → Handled (after_hello rates coordinator_owner delivers now ws peer_ip r)
    after_hello-Handled (continues, id, s) h = dispatch-IsSound s h
    after_hello-Handled (closed, id, s) h = h
    after_hello-Handled (failed, id, s) h = h

    handle_message-Handled :
        (m : Incoming) (current : Option Text) (s : State)
        → IsReadableMessage m
        → IsSound s
        → Handled (handle_message rates coordinator_owner delivers now ws peer_ip m current s)
    unfolding handle_message
    handle_message-Handled not_json current s readable h = h
    handle_message-Handled not_object current s readable h = cleanup-IsSound current s h
    handle_message-Handled (hello g) current s readable h =
        after_hello-Handled _ (handle_hello-Handled delivers now ws peer_ip g current s readable h)
    handle_message-Handled heartbeat current s readable h =
        handle_other-Handled current heartbeat s h
    handle_message-Handled job_log current s readable h = handle_other-Handled current job_log s h
    handle_message-Handled unknown current s readable h = handle_other-Handled current unknown s h
    handle_message-Handled (job_started id) current s readable h =
        handle_other-Handled current (job_started id) s h
    handle_message-Handled (job_result id code out err duration) current s readable h =
        handle_other-Handled current (job_result id code out err duration) s h

    closing :
        (r : Outcome × Option Text × State)
        → Handled r
        → (let after : State = elim r.0 [ failed ↦ cleanup r.1 r.2 | _ ↦ r.2 ] in IsSound after)
    closing (continues, id, s) h = h
    closing (closed, id, s) h = h
    closing (failed, id, s) h = h

    pub receive-IsSound :
        (m : Incoming) (current : Option Text) (s : State)
        → IsReadableMessage m
        → IsSound s
        → IsSound (receive rates coordinator_owner delivers now ws peer_ip m current s)
    unfolding receive
    receive-IsSound m current s readable h =
        closing _ (handle_message-Handled m current s readable h)
