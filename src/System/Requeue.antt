-- ===== src/System/Requeue.antt =====
-- What happens to the jobs of a worker that is gone: `handle_worker`'s cleanup in
-- coordinator/websocket.py and `watchdog_loop` in coordinator/scheduler.py.
use the_grid_x.Base.{
  ℕ, ◌≡◌, refl, ap, subst, Bool, true, ◌&&◌, ◌||◌, Option, none, some, List, [], ◌∷◌, ◌++◌, Text,
  text_eq, text_eq_refl, text_eq_iff, is_empty, Dict, lookup, keep, lookup-modify, lookup-erase,
  is_some, In, In-append_left, In-append_right, inl, inr, arith, Bool-cases,
}
use the_grid_x.Database.{
  Db, Job, queued, running, is_text, has_status, requeued_row, requeue_job, db_set_worker_offline,
}
use the_grid_x.State.{State}
use the_grid_x.Registry.{unregister_worker_ws, get_worker_ws}
use the_grid_x.Websocket.{jobs_running_on, requeue_all, cleanup}
use the_grid_x.Scheduler.{
  is_stale, last_heartbeat_of, requeue_from, check_job, check_jobs, running_jobs, watchdog,
}
use the_grid_x.System.Pending.{requeue-Pending}
use the_grid_x.System.Dispatching.{NoJobLost}

-- The job waits: its row says "queued" and names no worker, and its id is in the queue.
pub record IsWaiting (job_id : Text) (s : State) : Type 0 where
  pub row : Job
  pub found : lookup job_id s.db.jobs ≡ some row
  pub waits : row.status ≡ queued
  pub free : row.worker_id ≡ none
  pub listed : In job_id s.job_queue

-- One requeue of a job by its id.
abbrev pub requeue_one : Text → State → State
requeue_one job_id s = record s {
  db = requeue_job job_id s.db;
  job_queue = s.job_queue ++ job_id ∷ [];
}

requeue_one-IsWaiting :
    (job_id : Text) (s : State) (job : Job)
    → lookup job_id s.db.jobs ≡ some job
    → IsWaiting job_id (requeue_one job_id s)
unfolding requeue_job
requeue_one-IsWaiting job_id s job found = record {
  row = requeued_row job;
  found = rw (lookup-modify job_id job_id) (rw (text_eq_refl job_id) (rw found));
  waits = refl;
  free = refl;
  listed = In-append_right job_id s.job_queue (job_id ∷ []) (inl refl);
}

requeue_one_keeps :
    (job_id other : Text) (s : State) → IsWaiting job_id s → IsWaiting job_id (requeue_one other s)
unfolding requeue_job
requeue_one_keeps job_id other s h = elim (Bool-cases (text_eq other job_id)) [
  | inl same ↦ record {
    row = requeued_row h.row;
    found = rw (lookup-modify other job_id) (rw same (rw h.found));
    waits = refl;
    free = refl;
    listed = In-append_left job_id s.job_queue (other ∷ []) h.listed;
  }
  | inr different ↦ record {
    row = h.row;
    found = rw (lookup-modify other job_id) (rw different h.found);
    waits = h.waits;
    free = h.free;
    listed = In-append_left job_id s.job_queue (other ∷ []) h.listed;
  }
]

requeue_all_keeps :
    (rows : Dict Job) (job_id : Text) (s : State)
    → IsWaiting job_id s
    → IsWaiting job_id (requeue_all rows s)
unfolding requeue_all
requeue_all_keeps [] job_id s h = h
requeue_all_keeps ((other, _) ∷ rows) job_id s h =
    requeue_all_keeps rows job_id _ (requeue_one_keeps job_id other s h)

still_there :
    (job_id other : Text) (s : State) (job : Job)
    → lookup job_id s.db.jobs ≡ some job
    → (job' : Job) × (lookup job_id (requeue_one other s).db.jobs ≡ some job')
unfolding requeue_job
still_there job_id other s job found = elim (Bool-cases (text_eq other job_id)) [
  | inl same ↦ (requeued_row job, rw (lookup-modify other job_id) (rw same (rw found)))
  | inr different ↦ (job, rw (lookup-modify other job_id) (rw different found))
]

requeue_all-IsWaiting :
    (rows : Dict Job) (job_id : Text) (row : Job) (s : State) (job : Job)
    → In (job_id, row) rows
    → lookup job_id s.db.jobs ≡ some job
    → IsWaiting job_id (requeue_all rows s)
unfolding requeue_all
requeue_all-IsWaiting [] job_id row s job h found = absurd h
requeue_all-IsWaiting ((other, r) ∷ rows) job_id row s job (inl e) found =
    let same : job_id ≡ other = ap (λ (p : Text × Job). p.0) e in
    requeue_all_keeps rows job_id _ (
      subst (λ (i : Text). IsWaiting job_id (requeue_one i s)) same
        (requeue_one-IsWaiting job_id s job found))
requeue_all-IsWaiting ((other, r) ∷ rows) job_id row s job (inr h) found =
    let (job', found') = still_there job_id other s job found in
    requeue_all-IsWaiting rows job_id row _ job' h found'

-- A row that is found, and that a filter lets through, is in what it keeps.
lookup-keep :
    (p : Text × Job → Bool) (job_id : Text) (d : Dict Job) (job : Job)
    → lookup job_id d ≡ some job
    → p (job_id, job) ≡ true
    → In (job_id, job) (keep p d)
unfolding lookup
lookup-keep p job_id [] job found fits = absurd (cc)
lookup-keep p job_id ((j, w) ∷ d) job found fits = elim (Bool-cases (text_eq j job_id)) [
  | inl hit ↦
      let same : j ≡ job_id = (text_eq_iff j job_id).0 hit in
      let row : w ≡ job = ground arith in
      let pair : (job_id, job) ≡ (j, w) = rw (same, row) refl in
      let fits' : p (j, w) ≡ true = subst (λ (r : Text × Job). p r ≡ true) pair fits in
      rw fits' (inl pair)
  | inr miss ↦
      let rest = lookup-keep p job_id d job (rw miss at found) fits in
      elim (Bool-cases (p (j, w))) [
        | inl passes ↦ rw passes (inr rest)
        | inr dropped ↦ rw dropped rest
      ]
]

pub requeue_all-registry :
    (rows : Dict Job) (s : State) → (requeue_all rows s).workers_ws ≡ s.workers_ws
unfolding requeue_all
requeue_all-registry [] s = refl
requeue_all-registry ((id, _) ∷ rows) s = requeue_all-registry rows _

pub jobs-offline : (id : Text) (db : Db) → (db_set_worker_offline id db).jobs ≡ db.jobs
unfolding db_set_worker_offline
jobs-offline id db = ground arith

-- Once the handler of a connection has run its cleanup, the connection's worker is no longer
-- connected, and every job that ran on it waits again: the row says "queued" and names no worker, and
-- the id is in the queue. A handler that returns or raises before its cleanup is not covered.
pub cleanup-IsWaiting :
    (worker_id job_id : Text) (s : State) (job : Job)
    → lookup job_id s.db.jobs ≡ some job
    → job.status ≡ running
    → job.worker_id ≡ some worker_id
    → (lookup worker_id (cleanup (some worker_id) s).workers_ws ≡ none)
      × IsWaiting job_id (cleanup (some worker_id) s)
unfolding cleanup unregister_worker_ws
cleanup-IsWaiting worker_id job_id s job found runs here =
    let left : State = record s {
      db = db_set_worker_offline worker_id s.db;
      workers_ws = unregister_worker_ws worker_id s.workers_ws;
    } in
    let found' : lookup job_id left.db.jobs ≡ some job = rw (jobs-offline worker_id s.db) found in
    (
      rw (requeue_all-registry (jobs_running_on worker_id left.db) left)
          (rw (lookup-erase worker_id worker_id) (rw (text_eq_refl worker_id))),
      requeue_all-IsWaiting (jobs_running_on worker_id left.db) job_id job left job
          (lookup-keep
            (λ r. has_status (running ∷ []) r.1.status && is_text r.1.worker_id worker_id) job_id
            left.db.jobs job found' (rw runs (rw here (text_eq_refl worker_id))))
          found',
    )

requeue_all-NoJobLost : (rows : Dict Job) (s : State) → NoJobLost s → NoJobLost (requeue_all rows s)
unfolding requeue_all requeue_job
requeue_all-NoJobLost [] s h = h
requeue_all-NoJobLost ((id, _) ∷ rows) s h =
    requeue_all-NoJobLost rows _ (requeue-Pending id s.job_queue requeued_row s.db.jobs h)

-- The end of a connection loses no job that waits.
pub cleanup-NoJobLost : (o : Option Text) (s : State) → NoJobLost s → NoJobLost (cleanup o s)
unfolding cleanup
cleanup-NoJobLost none s h = h
cleanup-NoJobLost (some worker_id) s h =
    requeue_all-NoJobLost _ _ (rw (jobs-offline worker_id s.db) h)

module _ (now heartbeat_timeout : ℕ) where
  requeue_from-NoJobLost :
      (job_id worker_id : Text) (s : State)
      → NoJobLost s
      → NoJobLost (requeue_from job_id worker_id s)
  unfolding requeue_from requeue_job
  requeue_from-NoJobLost job_id worker_id s h =
      requeue-Pending job_id s.job_queue requeued_row s.db.jobs h

  check_job-NoJobLost :
      (job_id : Text) (o : Option Text) (s : State)
      → NoJobLost s
      → NoJobLost (check_job now heartbeat_timeout job_id o s)
  unfolding check_job
  check_job-NoJobLost job_id none s h = h
  check_job-NoJobLost job_id (some wid) s h =
      elim (Bool-cases (is_empty wid || is_some (get_worker_ws wid s.workers_ws))) [
        | inl served ↦ rw served h
        | inr alone ↦
            rw alone
              (elim (Bool-cases
                (is_stale now heartbeat_timeout (last_heartbeat_of (lookup wid s.db.workers)))) [
                  | inl stale ↦ rw stale (requeue_from-NoJobLost job_id wid s h)
                  | inr fresh ↦ rw fresh h
                ])
      ]

  check_jobs-NoJobLost :
      (rows : List (Text × Job)) (s : State)
      → NoJobLost s
      → NoJobLost (check_jobs now heartbeat_timeout rows s)
  unfolding check_jobs
  check_jobs-NoJobLost [] s h = h
  check_jobs-NoJobLost ((job_id, job) ∷ rows) s h =
      check_jobs-NoJobLost rows _ (check_job-NoJobLost job_id job.worker_id s h)

  -- A check of the watchdog loses no job that waits.
  pub watchdog-NoJobLost : (s : State) → NoJobLost s → NoJobLost (watchdog now heartbeat_timeout s)
  unfolding watchdog
  watchdog-NoJobLost s h = check_jobs-NoJobLost (running_jobs s.db) s h
