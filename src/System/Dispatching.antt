-- ===== src/System/Dispatching.antt =====
-- `dispatch` loses no job: an id leaves the queue for a job that runs from then on, or that is none.
use the_grid_x.Base.{
  ℕ, ◌≡◌, ◌∙◌, refl, sym, ap, subst, Bool, true, false, Option, none, some, List, [], ◌∷◌, Text,
  lookup, inl, inr, arith, Bool-cases, Option-cases, strip,
}
use mathlib.Core.Bool.{false≢true}
use the_grid_x.Utils.{validate_uuid}
use the_grid_x.Database.{
  Db, Job, ok, WorkerStatus, idle, busy, is_queued, assigned_row, requeued_row, db_get_job,
  requeue_job, db_set_worker_status, db_assign_job_to_worker, db_set_job_assigned,
}
use the_grid_x.State.{State, Message}
use the_grid_x.Registry.{get_worker_ws}
use the_grid_x.Scheduler.{
  job_msg, sent, revert, mark_assigned, deliver, assign, dispatch_job, dispatch_loop, dispatch,
}
use the_grid_x.System.Pending.{
  Pending, requeue-Pending, leave-Pending, drop-Pending, rotate-Pending,
}
use the_grid_x.System.Proper.{
  IsProperRegistry, set_worker_busy-IsProper, set_worker_idle-IsProper, get_idle_worker_id-ok,
  chosen_valid,
}

-- Every job whose row says "queued" stands in the queue.
abbrev pub NoJobLost : State → Type 0
NoJobLost s = Pending s.job_queue s.db.jobs

module _ (now : ℕ) where
  pub jobs-db_set_worker_status :
      (worker_id : Text) (status : WorkerStatus) (db : Db)
      → (db_set_worker_status now worker_id status db).jobs ≡ db.jobs
  unfolding db_set_worker_status
  jobs-db_set_worker_status worker_id status db = ground arith

  assign_to_worker-Pending :
      (job_id idle_id : Text) (rest : List Text) (db : Db)
      → Pending (job_id ∷ rest) db.jobs
      → Pending rest (db_assign_job_to_worker now job_id idle_id db).1.jobs
  unfolding db_assign_job_to_worker
  assign_to_worker-Pending job_id idle_id rest db h = elim (Option-cases (lookup job_id db.jobs)) [
    | inl e ↦
        rw (e, db_assign_job_to_worker)
          (drop-Pending job_id rest db.jobs (λ job valid found waits. cc) h)
    | inr (job, e) ↦
        rw (e, db_assign_job_to_worker)
          (elim (Bool-cases (is_queued job.status)) [
            | inl waits ↦
                rw waits
                  (leave-Pending job_id rest (assigned_row now idle_id) db.jobs (λ j. refl) h)
            | inr runs ↦ rw runs (
                drop-Pending job_id rest db.jobs
                  (λ j valid found waits. clash job j e found runs waits) h)
          ])
  ]
    where
      clash :
          (job j : Job)
          → lookup job_id db.jobs ≡ some job
          → lookup job_id db.jobs ≡ some j
          → is_queued job.status ≡ false
          → is_queued j.status ≡ true
          → ⊥
      clash job j e found runs waits =
          let p : some job ≡ some j = sym e ∙ found in
          let same : job ≡ j = ground arith in
          false≢true (sym runs ∙ subst (λ (x : Job). is_queued x.status ≡ true) (sym same) waits)

  -- An assignment takes the job out of the queue.
  mark_assigned-Pending :
      (job_id idle_id : Text) (rest : List Text) (s : State)
      → validate_uuid job_id ≡ true
      → validate_uuid idle_id ≡ true
      → Pending (job_id ∷ rest) s.db.jobs
      → Pending rest (mark_assigned now job_id idle_id s).db.jobs
  unfolding mark_assigned db_set_job_assigned
  mark_assigned-Pending job_id idle_id rest s valid valid_idle h =
      rw (valid, valid_idle, db_set_job_assigned)
        (assign_to_worker-Pending job_id idle_id rest _
          (rw (jobs-db_set_worker_status idle_id busy s.db) h))

  revert-NoJobLost :
      (job_id idle_id : Text) (rest : List Text) (s : State)
      → Pending rest s.db.jobs
      → NoJobLost (revert now job_id idle_id rest s)
  unfolding revert requeue_job
  revert-NoJobLost job_id idle_id rest s h =
      rw (jobs-db_set_worker_status idle_id idle s.db)
        (requeue-Pending job_id rest requeued_row s.db.jobs h)

-- What a round of the loop leaves: the job out of the queue and the loop going on, or the queue
-- complete again.
abbrev AfterRound : List Text → Bool × State → Type 0
AfterRound rest (true, s) = Pending rest s.db.jobs × IsProperRegistry s.workers_ws
AfterRound rest (false, s) = NoJobLost s × IsProperRegistry s.workers_ws

not_found :
    (job_id : Text) (db : Db)
    → db_get_job job_id db ≡ none
    → (job : Job) → validate_uuid job_id ≡ true
    → lookup job_id db.jobs ≡ some job
    → is_queued job.status ≡ true
    → ⊥
unfolding db_get_job
not_found job_id db e job valid found waits = ground arith

found_valid :
    (job_id : Text) (db : Db) (job : Job)
    → db_get_job job_id db ≡ some job
    → validate_uuid job_id ≡ true
unfolding db_get_job
found_valid job_id db job e = ground arith

module _ (coordinator_owner : Text) (delivers : ℕ → Bool) (now : ℕ) where
  marked-IsProper :
      (job_id idle_id : Text) (s : State)
      → IsProperRegistry s.workers_ws
      → IsProperRegistry (mark_assigned now job_id idle_id s).workers_ws
  unfolding mark_assigned
  marked-IsProper job_id idle_id s h = set_worker_busy-IsProper now idle_id s.workers_ws h

  revert-IsProper :
      (job_id idle_id : Text) (rest : List Text) (s : State)
      → IsProperRegistry s.workers_ws
      → IsProperRegistry (revert now job_id idle_id rest s).workers_ws
  unfolding revert
  revert-IsProper job_id idle_id rest s h = set_worker_idle-IsProper now idle_id s.workers_ws h

  sent-AfterRound :
      (ws : ℕ) (m : Message) (rest : List Text) (s : State)
      → Pending rest s.db.jobs
      → IsProperRegistry s.workers_ws
      → AfterRound rest (true, sent ws m s)
  unfolding sent
  sent-AfterRound ws m rest s h proper = (h, proper)

  deliver-AfterRound :
      (job_id : Text) (job : Job) (idle_id : Text) (o : Option ℕ) (rest : List Text) (s : State)
      → Pending rest s.db.jobs
      → IsProperRegistry s.workers_ws
      → AfterRound rest (deliver coordinator_owner delivers now job_id job idle_id o rest s)
  unfolding deliver
  deliver-AfterRound job_id job idle_id none rest s h proper =
      (revert-NoJobLost now job_id idle_id rest s h, revert-IsProper job_id idle_id rest s proper)
  deliver-AfterRound job_id job idle_id (some ws) rest s h proper =
      elim (Bool-cases (delivers ws)) [
        | inl delivered ↦ rw delivered (sent-AfterRound ws (job_msg job_id job) rest s h proper)
        | inr lost ↦ rw lost (
          revert-NoJobLost now job_id idle_id rest s h,
          revert-IsProper job_id idle_id rest s proper,
        )
      ]

  assign-AfterRound :
      (job_id : Text) (job : Job) (o : Option Text) (rest : List Text) (s : State)
      → validate_uuid job_id ≡ true
      → ((wid : Text) → o ≡ some wid → validate_uuid wid ≡ true)
      → Pending (job_id ∷ rest) s.db.jobs
      → IsProperRegistry s.workers_ws
      → AfterRound rest (assign coordinator_owner delivers now job_id job (ok o) rest s)
  unfolding assign
  assign-AfterRound job_id job none rest s valid named h proper =
      (rotate-Pending job_id rest s.db.jobs h, proper)
  assign-AfterRound job_id job (some wid) rest s valid named h proper =
      let marked = mark_assigned now job_id wid s in
      deliver-AfterRound job_id job wid (get_worker_ws wid marked.workers_ws) rest marked
        (mark_assigned-Pending now job_id wid rest s valid (named wid refl) h)
        (marked-IsProper job_id wid s proper)

  dispatch_job-AfterRound :
      (job_id : Text) (rest : List Text) (s : State)
      → Pending (job_id ∷ rest) s.db.jobs
      → IsProperRegistry s.workers_ws
      → AfterRound rest (dispatch_job coordinator_owner delivers now job_id rest s)
  unfolding dispatch_job
  dispatch_job-AfterRound job_id rest s h proper = elim (Option-cases (db_get_job job_id s.db)) [
    | inl e ↦
        rw (e, dispatch_job, AfterRound)
          (drop-Pending job_id rest s.db.jobs (not_found job_id s.db e) h, proper)
    | inr (job, e) ↦
        let owner = strip job.user_id in
        let (o, chosen) = get_idle_worker_id-ok coordinator_owner owner s.workers_ws proper in
        rw (e, dispatch_job, AfterRound)
          (rw chosen (
            assign-AfterRound job_id job o rest s (found_valid job_id s.db job e)
              (λ wid same.
                chosen_valid coordinator_owner owner s.workers_ws wid proper (chosen ∙ ap ok same))
              h proper))
  ]

  -- `dispatch` keeps every waiting job in the queue, and the registry proper.
  dispatch_loop-NoJobLost :
      (queue : List Text) (s : State)
      → Pending queue s.db.jobs
      → IsProperRegistry s.workers_ws
      → NoJobLost (dispatch_loop coordinator_owner delivers now queue s)
        × IsProperRegistry (dispatch_loop coordinator_owner delivers now queue s).workers_ws
  unfolding dispatch_loop
  dispatch_loop-NoJobLost [] s h proper = (h, proper)
  dispatch_loop-NoJobLost (job_id ∷ rest) s h proper =
      go (dispatch_job coordinator_owner delivers now job_id rest s)
        (dispatch_job-AfterRound job_id rest s h proper) (dispatch_loop-NoJobLost rest)
    where
      go :
          (r : Bool × State)
          → AfterRound rest r
          → ((s' : State)
              → Pending rest s'.db.jobs
              → IsProperRegistry s'.workers_ws
              → NoJobLost (dispatch_loop coordinator_owner delivers now rest s')
                × IsProperRegistry
                    (dispatch_loop coordinator_owner delivers now rest s').workers_ws)
          → let next : State = elim r.0 [
            | true ↦ dispatch_loop coordinator_owner delivers now rest r.1
            | false ↦ r.1
          ] in
            NoJobLost next × IsProperRegistry next.workers_ws
      go (true, s') (h', proper') ih = ih s' h' proper'
      go (false, s') after ih = after

  -- Where each connected worker has a valid id and readable capabilities, `dispatch` keeps every job
  -- whose row says "queued" in the queue, whichever sends fail, and keeps the registry so.
  pub dispatch-NoJobLost :
      (s : State)
      → NoJobLost s
      → IsProperRegistry s.workers_ws
      → NoJobLost (dispatch coordinator_owner delivers now s)
        × IsProperRegistry (dispatch coordinator_owner delivers now s).workers_ws
  unfolding dispatch
  dispatch-NoJobLost s h proper = dispatch_loop-NoJobLost s.job_queue s h proper
