-- ===== src/System/Stable.antt =====
-- Properties of the database that every operation of coordinator/database.py and
-- coordinator/credit_manager.py keeps, and that so every handler of the coordinator keeps.
use the_grid_x.Base.{
  ℕ, ℤ, ◌≡◌, Bool, true, false, Option, none, some, List, [], ◌∷◌, Text, is_empty, strip, lookup,
  modify, insert, is_some, inl, inr, Bool-cases, Option-cases, ◌||◌,
}
use the_grid_x.Database.{
  Db, Job, Caps, WorkerStatus, Restriction, offline, idle, busy, Result, ok, raise, requeue_job,
  db_get_job, db_set_worker_status, db_set_job_assigned, db_set_job_running, db_set_job_completed,
  db_set_worker_offline, db_upsert_worker, db_create_job, db_set_worker_restriction,
}
use the_grid_x.Credits.{Rates, ensure_user, deduct, credit, settle_job}
use the_grid_x.State.{State, Entry}
use the_grid_x.Registry.{get_idle_worker_id, get_worker_ws}
use the_grid_x.Api.{adopted_row}
use the_grid_x.Scheduler.{
  sent, revert, mark_assigned, deliver, assign, dispatch_job, dispatch_loop, dispatch,
  on_job_started, on_job_result, is_stale, last_heartbeat_of, requeue_from, check_job, check_jobs,
  running_jobs, watchdog,
}

-- What a property has to survive where jobs are routed: dispatch, and connections that end.
pub record IsRouted (P : Db → Type 0) : Type 0 where
  pub status :
      (now : ℕ) (id : Text) (st : WorkerStatus) (db : Db)
      → P db
      → P (db_set_worker_status now id st db)
  pub gone :
      (id : Text) (db : Db)
      → P db
      → P (record db { workers = modify id (λ w. record w { status = offline }) db.workers })
  pub leaves : (id : Text) (db : Db) → P db → P (db_set_worker_offline id db)
  pub requeues : (id : Text) (db : Db) → P db → P (requeue_job id db)
  pub assigns : (now : ℕ) (id wid : Text) (db : Db) → P db → P (db_set_job_assigned now id wid db).1

-- What it has to survive in the rest of the coordinator.
pub record IsStable (rates : Rates) (P : Db → Type 0) : Type 0 where
  pub routes : IsRouted P
  pub starts : (now : ℕ) (id : Text) (db : Db) → P db → P (db_set_job_running now id db)
  pub completes :
      (now : ℕ) (id stdout stderr : Text) (exit_code : ℤ) (db : Db)
      → P db
      → P (db_set_job_completed now id stdout stderr exit_code db).1
  pub settles :
      (now : ℕ) (id : Text) (owner : Option Text) (duration : Option ℤ) (db : Db)
      → P db
      → P (settle_job rates now id owner duration db)
  pub joins :
      (now : ℕ) (id ip : Text) (caps : Caps) (st : WorkerStatus) (owner_id auth_token : Text)
      (db db' : Db)
      → db_upsert_worker now id ip caps st owner_id auth_token db ≡ ok db'
      → P db
      → P db'
  pub creates :
      (is_printable : ℕ → Bool) (now : ℕ) (id user_id code language : Text) (timeout_s reserved : ℤ)
      (db db' : Db)
      → db_create_job is_printable now id user_id code language timeout_s reserved db ≡ ok db'
      → P db
      → P db'
  pub ensures :
      (now : ℕ) (user_id : Text) (db : Db) → P db → P (ensure_user rates now user_id none db).1
  pub deducts :
      (now : ℕ) (user_id : Text) (amount : ℤ) (db : Db) → P db → P (deduct now user_id amount db).1
  pub credits :
      (now : ℕ) (user_id : Text) (amount : ℤ) (db : Db)
      → P db
      → P (credit rates now user_id amount db)
  pub beats :
      (now : ℕ) (id : Text) (db : Db)
      → P db
      → P (record db {
        workers = modify id (λ w. record w { last_heartbeat = some now }) db.workers;
      })
  pub adopts :
      (now : ℕ) (id : Text) (entry : Entry) (db : Db)
      → P db
      → P (record db { workers = insert id (adopted_row now entry) db.workers })
  pub restricts :
      (id : Text) (r : Option Restriction) (db : Db)
      → P db
      → P (db_set_worker_restriction id r db).1

module _ (P : Db → Type 0) (routed : IsRouted P) where
  module _ (now : ℕ) where
    revert-Stable :
        (job_id idle_id : Text) (rest : List Text) (s : State)
        → P s.db
        → P (revert now job_id idle_id rest s).db
    unfolding revert
    revert-Stable job_id idle_id rest s h =
        routed.requeues job_id _ (routed.status now idle_id idle s.db h)

    mark_assigned-Stable :
        (job_id idle_id : Text) (s : State) → P s.db → P (mark_assigned now job_id idle_id s).db
    unfolding mark_assigned
    mark_assigned-Stable job_id idle_id s h =
        routed.assigns now job_id idle_id _ (routed.status now idle_id busy s.db h)

  module _ (coordinator_owner : Text) (delivers : ℕ → Bool) (now : ℕ) where
    deliver-Stable :
        (job_id : Text) (job : Job) (idle_id : Text) (o : Option ℕ) (rest : List Text) (s : State)
        → P s.db
        → P (deliver coordinator_owner delivers now job_id job idle_id o rest s).1.db
    unfolding deliver sent
    deliver-Stable job_id job idle_id none rest s h = revert-Stable now job_id idle_id rest s h
    deliver-Stable job_id job idle_id (some ws) rest s h = elim (Bool-cases (delivers ws)) [
      | inl delivered ↦ rw delivered h
      | inr lost ↦ rw lost (revert-Stable now job_id idle_id rest s h)
    ]

    assign-Stable :
        (job_id : Text) (job : Job) (r : Result (Option Text)) (rest : List Text) (s : State)
        → P s.db
        → P (assign coordinator_owner delivers now job_id job r rest s).1.db
    unfolding assign
    assign-Stable job_id job (raise e) rest s h = h
    assign-Stable job_id job (ok none) rest s h = h
    assign-Stable job_id job (ok (some wid)) rest s h =
        deliver-Stable job_id job wid _ rest _ (mark_assigned-Stable now job_id wid s h)

    dispatch_job-Stable :
        (job_id : Text) (rest : List Text) (s : State)
        → P s.db
        → P (dispatch_job coordinator_owner delivers now job_id rest s).1.db
    unfolding dispatch_job
    dispatch_job-Stable job_id rest s h = elim (Option-cases (db_get_job job_id s.db)) [
      | inl e ↦ rw (e, dispatch_job) h
      | inr (job, e) ↦
          rw (e, dispatch_job)
            (assign-Stable job_id job
              (get_idle_worker_id coordinator_owner (strip job.user_id) s.workers_ws) rest s h)
    ]

    dispatch_loop-Stable :
        (queue : List Text) (s : State)
        → P s.db
        → P (dispatch_loop coordinator_owner delivers now queue s).db
    unfolding dispatch_loop
    dispatch_loop-Stable [] s h = h
    dispatch_loop-Stable (job_id ∷ rest) s h =
        go (dispatch_job coordinator_owner delivers now job_id rest s)
          (dispatch_job-Stable job_id rest s h) (dispatch_loop-Stable rest)
      where
        go :
            (r : Bool × State)
            → P r.1.db
            → ((s' : State) → P s'.db → P (dispatch_loop coordinator_owner delivers now rest s').db)
            → let next : State = elim r.0 [
              | true ↦ dispatch_loop coordinator_owner delivers now rest r.1
              | false ↦ r.1
            ] in
              P next.db
        go (true, s') h' ih = ih s' h'
        go (false, s') h' ih = h'

    pub dispatch-Stable : (s : State) → P s.db → P (dispatch coordinator_owner delivers now s).db
    unfolding dispatch
    dispatch-Stable s h = dispatch_loop-Stable s.job_queue s h

  module _ (now heartbeat_timeout : ℕ) where
    check_job-Stable :
        (job_id : Text) (o : Option Text) (s : State)
        → P s.db
        → P (check_job now heartbeat_timeout job_id o s).db
    unfolding check_job requeue_from
    check_job-Stable job_id none s h = h
    check_job-Stable job_id (some wid) s h =
        elim (Bool-cases (is_empty wid || is_some (get_worker_ws wid s.workers_ws))) [
          | inl served ↦ rw served h
          | inr alone ↦
              rw alone
                (elim (Bool-cases
                  (is_stale now heartbeat_timeout (last_heartbeat_of (lookup wid s.db.workers)))) [
                    | inl stale ↦ rw stale (routed.requeues job_id _ (routed.gone wid s.db h))
                    | inr fresh ↦ rw fresh h
                  ])
        ]

    check_jobs-Stable :
        (rows : List (Text × Job)) (s : State)
        → P s.db
        → P (check_jobs now heartbeat_timeout rows s).db
    unfolding check_jobs
    check_jobs-Stable [] s h = h
    check_jobs-Stable ((job_id, job) ∷ rows) s h =
        check_jobs-Stable rows _ (check_job-Stable job_id job.worker_id s h)

    pub watchdog-Stable : (s : State) → P s.db → P (watchdog now heartbeat_timeout s).db
    unfolding watchdog
    watchdog-Stable s h = check_jobs-Stable (running_jobs s.db) s h

module _ (rates : Rates) (P : Db → Type 0) (stable : IsStable rates P) where
  pub on_job_started-Stable :
      (now : ℕ) (job_id : Text) (s : State) → P s.db → P (on_job_started now job_id s).db
  unfolding on_job_started
  on_job_started-Stable now job_id s h = stable.starts now job_id s.db h

  pub on_job_result-Stable :
      (now : ℕ) (job_id worker_id : Text) (exit_code : ℤ) (stdout stderr : Text)
      → (duration : Option ℤ) (s : State) → P s.db
      → P (on_job_result rates now job_id worker_id exit_code stdout stderr duration s).db
  unfolding on_job_result
  on_job_result-Stable now job_id worker_id exit_code stdout stderr duration s h =
      stable.routes.status now worker_id idle _ (
        stable.completes now job_id stdout stderr exit_code _
          (stable.settles now job_id _ duration s.db h))
