-- ===== src/Database/Laws.antt =====
-- coordinator/database.py: what the operations on a job's status guarantee.
use the_grid_x.Base.{
  ℕ, ◌≡◌, ◌↔◌, ◌⊎◌, refl, sym, ap, subst, ◌∙◌, Bool, true, false, ◌&&◌, none, some, Text,
  text_eq_refl, lookup, modify, lookup-modify, if◌then◌else◌, arith, Option-cases, Bool-cases, inl,
  inr,
}
use mathlib.Core.Bool.{false≢true}
use the_grid_x.Utils.{validate_uuid}
use the_grid_x.Database.Schema.{Job, running, busy, Db}
use the_grid_x.Database.Assignment.{
  is_queued, assigned_row, db_assign_job_to_worker, db_set_job_assigned,
}
use the_grid_x.Database.Jobs.{db_get_job}

-- The database after a job was assigned to a worker.
abbrev pub assigned_db : (now : ℕ) (job_id worker_id : Text) → Db → Db
assigned_db now job_id worker_id db = record db {
  jobs = modify job_id (assigned_row now worker_id) db.jobs;
  workers = modify worker_id (λ w. record w { status = busy }) db.workers;
}

module _ (now : ℕ) (job_id worker_id : Text) (db : Db) where
  assign_found :
      (job : Job)
      → validate_uuid job_id ≡ true
      → validate_uuid worker_id ≡ true
      → lookup job_id db.jobs ≡ some job
      → db_set_job_assigned now job_id worker_id db ≡ (
          if is_queued job.status then (true, assigned_db now job_id worker_id db) else (false, db))
  unfolding db_set_job_assigned db_assign_job_to_worker
  assign_found job valid fit found = rw (valid, fit, found, db_assign_job_to_worker)

  assign_missing :
      lookup job_id db.jobs ≡ none → db_set_job_assigned now job_id worker_id db ≡ (false, db)
  unfolding db_set_job_assigned db_assign_job_to_worker
  assign_missing missing = elim (Bool-cases (validate_uuid job_id && validate_uuid worker_id)) [
    | inl valid ↦ rw (valid, missing, db_assign_job_to_worker)
    | inr invalid ↦ rw invalid
  ]

  assign_invalid :
      (validate_uuid job_id && validate_uuid worker_id) ≡ false
      → db_set_job_assigned now job_id worker_id db ≡ (false, db)
  unfolding db_set_job_assigned
  assign_invalid invalid = rw invalid

  -- What an assignment needs.
  abbrev pub IsAssignable : Type 0
  IsAssignable =
      (validate_uuid worker_id ≡ true)
      × ((job : Job) × (db_get_job job_id db ≡ some job) × (is_queued job.status ≡ true))

  assign-cases :
      (IsAssignable
        × (validate_uuid job_id ≡ true)
        × (db_set_job_assigned now job_id worker_id db
            ≡ (true, assigned_db now job_id worker_id db)))
      ⊎ (db_set_job_assigned now job_id worker_id db ≡ (false, db))
  unfolding db_get_job
  assign-cases = elim (Bool-cases (validate_uuid job_id && validate_uuid worker_id)) [
    | inr invalid ↦ inr (assign_invalid invalid)
    | inl both ↦ elim (Option-cases (lookup job_id db.jobs)) [
      | inl missing ↦ inr (assign_missing missing)
      | inr (job, found) ↦
          let valid : validate_uuid job_id ≡ true = ground arith in
          let fit : validate_uuid worker_id ≡ true = ground arith in
          let e = assign_found job valid fit found in
          elim (Bool-cases (is_queued job.status)) [
            | inl waits ↦ inl ((fit, (job, rw valid found, waits)), valid, rw waits at e)
            | inr runs ↦ inr (rw runs at e)
          ]
    ]
  ]

  -- An assignment succeeds just where both ids are UUIDs and the job's row says "queued".
  pub db_set_job_assigned_iff :
      ((db_set_job_assigned now job_id worker_id db).0 ≡ true) ↔ IsAssignable
  unfolding db_get_job
  db_set_job_assigned_iff = (
    λ e. elim assign-cases [
      | inl (h, _, _) ↦ h
      | inr refused ↦ absurd (false≢true (sym (ap (λ (r : Bool × Db). r.0) refused) ∙ e))
    ],
    λ (fit, (job, got, waits)).
        let valid : validate_uuid job_id ≡ true = ground arith in
        let found : lookup job_id db.jobs ≡ some job = ground arith in
        rw (assign_found job valid fit found) (rw waits),
  )

  -- An assignment of a job that the table holds, if it succeeds, leaves the job's row with the status
  -- "running", that worker and the time of the assignment, and its other columns as they were; if it
  -- fails, it leaves the database as it was.
  pub db_get_job-db_set_job_assigned :
      (job : Job)
      → db_get_job job_id db ≡ some job
      → (let r : Bool × Db = db_set_job_assigned now job_id worker_id db in
          ((r.0 ≡ true)
            × (db_get_job job_id r.1
                ≡ some (record job {
                  worker_id = some worker_id;
                  status = running;
                  started_at = some now;
                })))
          ⊎ ((r.0 ≡ false) × (r.1 ≡ db)))
  unfolding db_get_job
  db_get_job-db_set_job_assigned job e = elim assign-cases [
    | inr refused ↦ rw refused (inr (refl, refl))
    | inl (_, valid, done) ↦
        let found : lookup job_id db.jobs ≡ some job = ground arith in
        let after : lookup job_id (modify job_id (assigned_row now worker_id) db.jobs)
            ≡ some (assigned_row now worker_id job) =
          rw (lookup-modify job_id job_id (assigned_row now worker_id) db.jobs)
            (rw (text_eq_refl job_id) (rw found)) in
        rw done (inl (refl, rw valid after))
  ]

-- Of two assignments of one job in a row, the second fails: no job is given to two workers.
pub db_set_job_assigned_twice :
    (now later : ℕ) (job_id worker_id other : Text) (db : Db)
    → (db_set_job_assigned now job_id worker_id db).0 ≡ true
    → (let first : Bool × Db = db_set_job_assigned now job_id worker_id db in
        db_set_job_assigned later job_id other first.1 ≡ (false, first.1))
db_set_job_assigned_twice now later job_id worker_id other db e =
    let (_, (job, got, waits)) = (db_set_job_assigned_iff now job_id worker_id db).0 e in
    elim (db_get_job-db_set_job_assigned now job_id worker_id db job got) [
      | inr (refused, _) ↦ absurd (false≢true (sym refused ∙ e))
      | inl (_, after) ↦
          elim (assign-cases later job_id other (db_set_job_assigned now job_id worker_id db).1) [
            | inr refused ↦ refused
            | inl ((_, (row, got', waits')), _, _) ↦
                let same : row ≡ assigned_row now worker_id job = ground (arith, after, got') in
                absurd (false≢true (subst (λ (j : Job). is_queued j.status ≡ true) same waits'))
          ]
    ]
