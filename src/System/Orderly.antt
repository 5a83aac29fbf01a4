-- ===== src/System/Orderly.antt =====
-- The states that a coordinator can come to where every worker's capabilities can be read.
use the_grid_x.Base.{
  ℕ, ◌≡◌, refl, Bool, not, ◌&&◌, Option, none, some, List, [], ◌∷◌, Text, text, is_empty, strip,
  lookup, inl, inr, arith, Bool-cases, or_else,
}
use the_grid_x.Utils.{
  Value, null, boolean, int, real, str, container, validate_uuid, validate_user_id, sanitize_string,
}
use the_grid_x.Database.{Job, Restriction, idle, db_upsert_worker}
use the_grid_x.State.{State, initial}
use the_grid_x.Registry.{disconnect_worker, broadcast_to_all_workers}
use the_grid_x.Scheduler.{requeue_from, check_job, check_jobs, running_jobs, watchdog}
use the_grid_x.Api.{
  Registration, register_known, register_id, register_worker_http, heartbeat_body,
  admin_disconnect_worker, is_truthy, ensure_worker_exists_for_restriction, restrict_worker,
  admin_unsuspend_worker, admin_broadcast,
}
use the_grid_x.System.Dispatching.{dispatch-NoJobLost}
use the_grid_x.System.Requeue.{watchdog-NoJobLost}
use the_grid_x.System.Handlers.{Result-cases}
use the_grid_x.System.Sound.{IsSound, jobs-upsert}
use the_grid_x.System.Waiting.{IsReadableMessage, receive-IsSound, cleanup-IsSound}
use the_grid_x.System.Requests.{
  submit_job-IsSound, heartbeat_path-IsSound, get_credits-IsSound, disconnect_worker-IsSound,
  ensure_worker-IsSound, restricted-IsSound,
}
use the_grid_x.System.Steps.{
  Setting, Step, receives, closes, dispatches, watches, submits, registers, beats, beats_body, asks,
  disconnects, restricts, unsuspends, announces,
}

module _ (is_printable : ℕ → Bool) (to_str : Value → Text) (now : ℕ) (s : State) where
  register_known-IsSound :
      (worker_id : Text) (body : Registration)
      → IsSound s
      → IsSound (register_known is_printable to_str now worker_id body s).1
  unfolding register_known
  register_known-IsSound worker_id body h =
      let ip =
        sanitize_string is_printable to_str (or_else body.ip (str (text "http-worker"))) 255 in
      let owner_id =
        sanitize_string is_printable to_str (or_else body.owner_id (str (text ""))) 64 in
      elim (Bool-cases (not (is_empty owner_id) && not (validate_user_id (str owner_id)))) [
        | inl bad ↦ rw bad h
        | inr fine ↦
            rw fine
              (elim (Result-cases
                (db_upsert_worker now worker_id ip body.caps idle owner_id (text "") s.db)) [
                  | inr (e, raised) ↦ rw raised h
                  | inl (db', written) ↦ rw written (
                    rw
                        (jobs-upsert now worker_id ip body.caps idle owner_id (text "") s.db db'
                          written)
                        h.0,
                    h.1,
                  )
                ])
      ]

  register_id-IsSound :
      (id : Value) (body : Registration)
      → IsSound s
      → IsSound (register_id is_printable to_str now id body s).1
  unfolding register_id
  register_id-IsSound (str worker_id) body h = elim (Bool-cases (validate_uuid worker_id)) [
    | inl valid ↦ rw valid (register_known-IsSound worker_id body h)
    | inr invalid ↦ rw invalid h
  ]
  register_id-IsSound null body h = h
  register_id-IsSound (boolean b) body h = h
  register_id-IsSound (int z) body h = h
  register_id-IsSound (real z) body h = h
  register_id-IsSound (container filled) body h = h

  register_worker_http-IsSound :
      (body : Registration)
      → IsSound s
      → IsSound (register_worker_http is_printable to_str now body s).1
  unfolding register_worker_http
  register_worker_http-IsSound body h = elim (Bool-cases (is_truthy body.id)) [
    | inl given ↦ rw given (register_id-IsSound body.id body h)
    | inr missing ↦ rw missing h
  ]

heartbeat_body-IsSound :
    (now : ℕ) (id : Value) (s : State) → IsSound s → IsSound (heartbeat_body now id s).1
unfolding heartbeat_body
heartbeat_body-IsSound now (str id) s h = elim (Bool-cases (is_empty id)) [
  | inl missing ↦ rw missing h
  | inr given ↦ rw given (heartbeat_path-IsSound id s now h)
]
heartbeat_body-IsSound now null s h = h
heartbeat_body-IsSound now (boolean b) s h = h
heartbeat_body-IsSound now (int z) s h = h
heartbeat_body-IsSound now (real z) s h = h
heartbeat_body-IsSound now (container filled) s h = h

module _ (delivers : ℕ → Bool) (worker_id : Text) (s : State) where
  admin_disconnect_worker-IsSound :
      IsSound s → IsSound (admin_disconnect_worker delivers worker_id s).1
  unfolding admin_disconnect_worker
  admin_disconnect_worker-IsSound h = elim (Bool-cases (validate_uuid worker_id)) [
    | inl valid ↦ rw valid (disconnect_worker-IsSound worker_id s delivers h)
    | inr invalid ↦ rw invalid h
  ]

  restrict_worker-IsSound :
      (now : ℕ) (r : Restriction)
      → IsSound s
      → IsSound (restrict_worker delivers now r worker_id s).1
  unfolding restrict_worker
  restrict_worker-IsSound now r h =
      let checked = ensure_worker_exists_for_restriction now worker_id s in
      let h' = ensure_worker-IsSound worker_id s now h in
      elim (Bool-cases (validate_uuid worker_id)) [
        | inl valid ↦ rw valid (elim (Bool-cases checked.0) [
          | inl exists ↦ rw exists (
              restricted-IsSound worker_id (disconnect_worker delivers worker_id checked.1).1
                (some r) (disconnect_worker-IsSound worker_id checked.1 delivers h'))
          | inr missing ↦ rw missing h'
        ])
        | inr invalid ↦ rw invalid h
      ]

admin_unsuspend_worker-IsSound :
    (now : ℕ) (worker_id : Text) (s : State)
    → IsSound s
    → IsSound (admin_unsuspend_worker now worker_id s).1
unfolding admin_unsuspend_worker
admin_unsuspend_worker-IsSound now worker_id s h =
    let checked = ensure_worker_exists_for_restriction now worker_id s in
    let h' = ensure_worker-IsSound worker_id s now h in
    elim (Bool-cases (validate_uuid worker_id)) [
      | inl valid ↦ rw valid (elim (Bool-cases checked.0) [
        | inl exists ↦ rw exists (restricted-IsSound worker_id checked.1 none h')
        | inr missing ↦ rw missing h'
      ])
      | inr invalid ↦ rw invalid h
    ]

admin_broadcast-IsSound :
    (is_printable delivers : ℕ → Bool) (message : Text) (s : State)
    → IsSound s
    → IsSound (admin_broadcast is_printable delivers message s).1
unfolding admin_broadcast broadcast_to_all_workers
admin_broadcast-IsSound is_printable delivers message s h =
    elim (Bool-cases (is_empty (strip message))) [
      | inl nothing ↦ rw nothing h
      | inr something ↦ rw something h
    ]

module _ (now heartbeat_timeout : ℕ) where
  registry-check_job :
      (job_id : Text) (o : Option Text) (s : State)
      → (check_job now heartbeat_timeout job_id o s).workers_ws ≡ s.workers_ws
  unfolding check_job requeue_from
  registry-check_job job_id none s = refl
  registry-check_job job_id (some wid) s = ground arith

  registry-check_jobs :
      (rows : List (Text × Job)) (s : State)
      → (check_jobs now heartbeat_timeout rows s).workers_ws ≡ s.workers_ws
  unfolding check_jobs
  registry-check_jobs [] s = refl
  registry-check_jobs ((job_id, job) ∷ rows) s =
      rw (registry-check_jobs rows _) (registry-check_job job_id job.worker_id s)

  registry-watchdog : (s : State) → (watchdog now heartbeat_timeout s).workers_ws ≡ s.workers_ws
  unfolding watchdog
  registry-watchdog s = registry-check_jobs (running_jobs s.db) s

  watchdog-IsSound : (s : State) → IsSound s → IsSound (watchdog now heartbeat_timeout s)
  watchdog-IsSound s h =
      (watchdog-NoJobLost now heartbeat_timeout s h.0, rw (registry-watchdog s) h.1)

module _ (setting : Setting) where
  -- A step in which no worker greets with capabilities that cannot be read.
  abbrev pub IsOrderly : (s s' : State) → Step setting s s' → Type 0
  IsOrderly _ _ (receives delivers now ws ip m current s) = IsReadableMessage m
  IsOrderly _ _ _ = Unit

  pub data Orderly : State → Type 0 where
    start : Orderly initial
    step :
        (s s' : State) → Orderly s → (taken : Step setting s s') → IsOrderly s s' taken → Orderly s'

  Step-IsSound :
      (s s' : State) (taken : Step setting s s') → IsOrderly s s' taken → IsSound s → IsSound s'
  Step-IsSound _ _ (receives delivers now ws ip m current s) readable h =
      receive-IsSound setting.rates setting.coordinator_owner delivers now ws ip m current s
        readable h
  Step-IsSound _ _ (closes current s) readable h = cleanup-IsSound current s h
  Step-IsSound _ _ (dispatches delivers now s) readable h =
      dispatch-NoJobLost setting.coordinator_owner delivers now s h.0 h.1
  Step-IsSound _ _ (watches now limit s) readable h = watchdog-IsSound now limit s h
  Step-IsSound _ _ (submits delivers now id body s) readable h =
      submit_job-IsSound setting.rates setting.is_printable setting.coordinator_owner delivers now
        id setting.parse_int body s h
  Step-IsSound _ _ (registers now body s) readable h =
      register_worker_http-IsSound setting.is_printable setting.to_str now s body h
  Step-IsSound _ _ (beats now id s) readable h = heartbeat_path-IsSound id s now h
  Step-IsSound _ _ (beats_body now id s) readable h = heartbeat_body-IsSound now id s h
  Step-IsSound _ _ (asks now id s) readable h = get_credits-IsSound id s setting.rates now h
  Step-IsSound _ _ (disconnects delivers id s) readable h =
      admin_disconnect_worker-IsSound delivers id s h
  Step-IsSound _ _ (restricts delivers now r id s) readable h =
      restrict_worker-IsSound delivers id s now r h
  Step-IsSound _ _ (unsuspends now id s) readable h = admin_unsuspend_worker-IsSound now id s h
  Step-IsSound _ _ (announces delivers message s) readable h =
      admin_broadcast-IsSound setting.is_printable delivers message s h

  -- From a new database, no sequence of steps in which every worker greets with readable
  -- capabilities loses a job: each row that says "queued" has its id in the queue, and every
  -- connected worker has a valid id and can be read.
  pub Orderly-IsSound : (s : State) → Orderly s → IsSound s
  unfolding lookup
  Orderly-IsSound _ start = (λ id job valid found waits. absurd (cc), tt)
  Orderly-IsSound _ (step s s' r taken readable) =
      Step-IsSound s s' taken readable (Orderly-IsSound s r)
