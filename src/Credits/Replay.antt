-- ===== src/Credits/Replay.antt =====
-- What a second settlement of one job does.
use the_grid_x.Base.{
  ℕ, ◌≡◌, refl, ℤ, pos, ◌+ℤ◌, ◌-ℤ◌, ◌≤ℤ◌, leb_ℤ, max_ℤ, true, false, Option, none, some, or_else,
  [], ◌∷◌, Text, text_eq_refl, lookup, lookup-modify, modify, strip, arith, int_laws, max-eq_right,
}
use the_grid_x.Database.{Db, Job, db_get_job}
use the_grid_x.Utils.{validate_uuid}
use the_grid_x.Credits.Pricing.{Rates, compute_cost, compute_reward}
use the_grid_x.Credits.Balance.{ensure_user, credit}
use the_grid_x.Credits.Bounds.{IsSensible, compute_cost_bounds}
use the_grid_x.Credits.Settle.{
  add_spent, add_earned, reserved_of, refund_of, pay_refund, note_spent, pay_owner, cost_row,
  record_cost, settle_row, settle_job,
}
use the_grid_x.Credits.Settlement.{due_to, due_to_owner, total-settle_job}
use the_grid_x.Credits.Totals.{total}

db_get_job_parts :
    (job_id : Text) (db : Db) (job : Job)
    → db_get_job job_id db ≡ some job
    → (validate_uuid job_id ≡ true) × (lookup job_id db.jobs ≡ some job)
unfolding db_get_job
db_get_job_parts job_id db job e = ground arith

db_get_job-of_jobs :
    (job_id : Text) (db : Db) (job : Job)
    → validate_uuid job_id ≡ true
    → lookup job_id db.jobs ≡ some job
    → db_get_job job_id db ≡ some job
unfolding db_get_job
db_get_job-of_jobs job_id db job valid found = rw valid found

-- A settled job has nothing left to refund.
refund_of_settled :
    (rates : Rates) (job : Job) (duration : Option ℤ)
    → pos 1 ≤ℤ compute_cost rates duration
    → refund_of rates (cost_row duration (compute_cost rates duration) job) duration ≡ pos 0
unfolding refund_of reserved_of
refund_of_settled rates job duration h =
    let some_cost : leb_ℤ (compute_cost rates duration) (pos 0) ≡ false = ground arith in
    rw some_cost (none_left (compute_cost rates duration))
  where
    none_left : (c : ℤ) → max_ℤ (pos 0) (c -ℤ c) ≡ pos 0
    none_left c =
        let e : c -ℤ c ≡ pos 0 = omega int_laws in rw e (max-eq_right (pos 0) (pos 0) (omega arith))

no_refund :
    (user_id : Text) (sum share : ℤ) → (sum +ℤ due_to user_id (pos 0)) +ℤ share ≡ sum +ℤ share
no_refund [] sum share = omega int_laws
no_refund (c ∷ u) sum share = omega int_laws

module _ (rates : Rates) (now : ℕ) where
  pub jobs-credit :
      (user_id : Text) (amount : ℤ) (db : Db) → (credit rates now user_id amount db).jobs ≡ db.jobs
  unfolding credit ensure_user
  jobs-credit user_id amount db = ground arith

  jobs-pay_refund :
      (user_id : Text) (amount : ℤ) (db : Db)
      → (pay_refund rates now user_id amount db).jobs ≡ db.jobs
  unfolding pay_refund
  jobs-pay_refund user_id amount db = ground (arith, jobs-credit user_id amount db)

  jobs-note_spent :
      (user_id : Text) (amount : ℤ) (db : Db) → (note_spent now user_id amount db).jobs ≡ db.jobs
  unfolding note_spent add_spent
  jobs-note_spent user_id amount db = ground arith

  jobs-pay_owner :
      (owner : Option Text) (amount : ℤ) (db : Db)
      → (pay_owner rates now owner amount db).jobs ≡ db.jobs
  unfolding pay_owner add_earned
  jobs-pay_owner none amount db = refl
  jobs-pay_owner (some owner) amount db = ground (arith, jobs-credit (strip owner) amount db)

  pub jobs-settle_row :
      (job_id : Text) (owner : Option Text) (duration : Option ℤ) (job : Job) (db : Db)
      → (settle_row rates now job_id owner duration job db).jobs
        ≡ modify job_id (cost_row duration (compute_cost rates duration)) db.jobs
  unfolding settle_row record_cost
  jobs-settle_row job_id owner duration job db =
      rw (jobs-pay_owner owner _ _) (rw (jobs-note_spent _ _ _) (rw (jobs-pay_refund _ _ db)))

  settle_job-found :
      (job_id : Text) (owner : Option Text) (duration : Option ℤ) (db : Db) (job : Job)
      → db_get_job job_id db ≡ some job
      → settle_job rates now job_id owner duration db
        ≡ settle_row rates now job_id owner duration job db
  unfolding settle_job
  settle_job-found job_id owner duration db job e = rw (e, settle_job)

  -- After a settlement of a job that the table holds, the job's row holds the actual cost in place of
  -- the reserve, and the duration that was reported, or 0 where none was; its other columns are as
  -- they were.
  pub db_get_job-settle_job :
      (job_id : Text) (owner : Option Text) (duration : Option ℤ) (db : Db) (job : Job)
      → db_get_job job_id db ≡ some job
      → db_get_job job_id (settle_job rates now job_id owner duration db)
        ≡ some (record job {
          duration_seconds = some (or_else duration (pos 0));
          cost = compute_cost rates duration;
        })
  db_get_job-settle_job job_id owner duration db job e =
      let (valid, found) = db_get_job_parts job_id db job e in
      rw (settle_job-found job_id owner duration db job e) (
        db_get_job-of_jobs job_id _ _ valid (
          rw (jobs-settle_row job_id owner duration job db)
            (rw lookup-modify (rw text_eq_refl (rw found)))))

  -- Where the rates make sense (no negative cost per second and no negative initial balance, a
  -- positive MIN_COST that is at most MAX_COST, a positive default timeout, and a reward ratio between
  -- 0 and 1), a second settlement of a job that the table holds, with the same report, refunds nothing
  -- and pays the worker's owner the whole reward once more, if the owner has an id.
  pub settle_job_twice :
      (job_id : Text) (owner : Option Text) (duration : Option ℤ) (db : Db) (job : Job)
      → IsSensible rates
      → db_get_job job_id db ≡ some job
      → let first = settle_job rates now job_id owner duration db in
        total (settle_job rates now job_id owner duration first)
        ≡ total first +ℤ due_to_owner owner (compute_reward rates (compute_cost rates duration))
  settle_job_twice job_id owner duration db job sensible e =
      let first = settle_job rates now job_id owner duration db in
      let cost = compute_cost rates duration in
      let settled = cost_row duration cost job in
      let (low, high) = compute_cost_bounds rates sensible duration in
      let floor = sensible.min_pos in
      rw
        (total-settle_job rates now job_id owner duration first settled sensible
          (db_get_job-settle_job job_id owner duration db job e))
        (rw (refund_of_settled rates job duration (omega arith)) (
          no_refund (strip job.user_id) (total first)
            (due_to_owner owner (compute_reward rates cost))))
