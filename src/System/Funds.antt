-- ===== src/System/Funds.antt =====
-- No step of the coordinator leaves a user in debt.
use the_grid_x.Base.{
  ℕ, ℤ, pos, ◌≤ℤ◌, ◌≡◌, ◌∙◌, sym, subst, Bool, Option, none, Text, Dict, lookup, inl, inr, arith,
  Option-cases, Values,
}
use the_grid_x.Database.{
  Db, Caps, WorkerStatus, Restriction, UserCredits, ok, db_set_worker_status, db_set_worker_offline,
  db_set_job_assigned, db_assign_job_to_worker, db_set_job_running, db_update_job_status,
  db_set_job_completed, db_complete_job, db_upsert_worker, db_register_user_auth, db_create_job,
  db_set_worker_restriction, requeue_job,
}
use the_grid_x.Credits.{Rates}
use the_grid_x.Credits.Accounts.{
  HasFunds, IsSolvent, ensure_user-IsSolvent, deduct-IsSolvent, credit-IsSolvent,
  settle_job-IsSolvent,
}
use the_grid_x.System.Stable.{IsRouted, IsStable}

credits-status :
    (now : ℕ) (id : Text) (st : WorkerStatus) (db : Db)
    → (db_set_worker_status now id st db).user_credits ≡ db.user_credits
unfolding db_set_worker_status
credits-status now id st db = ground arith

credits-offline :
    (id : Text) (db : Db) → (db_set_worker_offline id db).user_credits ≡ db.user_credits
unfolding db_set_worker_offline
credits-offline id db = ground arith

credits-assign :
    (now : ℕ) (id wid : Text) (db : Db)
    → (db_assign_job_to_worker now id wid db).1.user_credits ≡ db.user_credits
unfolding db_assign_job_to_worker
credits-assign now id wid db = elim (Option-cases (lookup id db.jobs)) [
  | inl e ↦ rw (e, db_assign_job_to_worker)
  | inr (job, e) ↦ rw (e, db_assign_job_to_worker) (ground arith)
]

credits-assigned :
    (now : ℕ) (id wid : Text) (db : Db)
    → (db_set_job_assigned now id wid db).1.user_credits ≡ db.user_credits
unfolding db_set_job_assigned
credits-assigned now id wid db = ground (arith, credits-assign now id wid db)

credits-running :
    (now : ℕ) (id : Text) (db : Db) → (db_set_job_running now id db).user_credits ≡ db.user_credits
unfolding db_set_job_running db_update_job_status
credits-running now id db = ground arith

credits-completed :
    (now : ℕ) (id stdout stderr : Text) (exit_code : ℤ) (db : Db)
    → (db_set_job_completed now id stdout stderr exit_code db).1.user_credits ≡ db.user_credits
unfolding db_set_job_completed db_complete_job
credits-completed now id stdout stderr exit_code db = ground arith

credits-restriction :
    (id : Text) (r : Option Restriction) (db : Db)
    → (db_set_worker_restriction id r db).1.user_credits ≡ db.user_credits
unfolding db_set_worker_restriction
credits-restriction id r db = ground arith

credits-upsert :
    (now : ℕ) (id ip : Text) (caps : Caps) (st : WorkerStatus) (owner_id auth_token : Text)
    (db db' : Db)
    → db_upsert_worker now id ip caps st owner_id auth_token db ≡ ok db'
    → db'.user_credits ≡ db.user_credits
unfolding db_upsert_worker db_register_user_auth
credits-upsert now id ip caps st owner_id auth_token db db' e = ground arith

pub credits-create :
    (is_printable : ℕ → Bool) (now : ℕ) (id user_id code language : Text) (timeout_s reserved : ℤ)
    (db db' : Db)
    → db_create_job is_printable now id user_id code language timeout_s reserved db ≡ ok db'
    → db'.user_credits ≡ db.user_credits
unfolding db_create_job
credits-create is_printable now id user_id code language timeout_s reserved db db' e = ground arith

unchanged_funds :
    (rows rows' : Dict UserCredits) → rows' ≡ rows → Values HasFunds rows → Values HasFunds rows'
unchanged_funds rows rows' same = subst (Values HasFunds) (sym same)

-- Where jobs are routed, no credit moves.
pub funds-IsRouted : (funds : Dict UserCredits) → IsRouted (λ db. db.user_credits ≡ funds)
unfolding requeue_job
funds-IsRouted funds = record {
  status = λ now id st db h. credits-status now id st db ∙ h;
  gone = λ id db h. h;
  leaves = λ id db h. credits-offline id db ∙ h;
  requeues = λ id db h. h;
  assigns = λ now id wid db h. credits-assigned now id wid db ∙ h;
}

pub IsSolvent-IsRouted : IsRouted IsSolvent
unfolding requeue_job
IsSolvent-IsRouted = record {
  status = λ now id st db. unchanged_funds _ _ (credits-status now id st db);
  gone = λ id db h. h;
  leaves = λ id db. unchanged_funds _ _ (credits-offline id db);
  requeues = λ id db h. h;
  assigns = λ now id wid db. unchanged_funds _ _ (credits-assigned now id wid db);
}

module _ (rates : Rates) where
  -- Solvency is kept by every operation on the database.
  pub IsSolvent-IsStable : pos 0 ≤ℤ rates.default_initial_balance → IsStable rates IsSolvent
  unfolding requeue_job
  IsSolvent-IsStable some_funds = record {
    routes = IsSolvent-IsRouted;
    starts = λ now id db. unchanged_funds _ _ (credits-running now id db);
    completes =
        λ now id out err code db. unchanged_funds _ _ (credits-completed now id out err code db);
    settles = λ now id owner duration db. settle_job-IsSolvent rates now id owner duration db;
    joins = λ now id ip caps st owner_id auth_token db db' e.
        unchanged_funds _ _ (credits-upsert now id ip caps st owner_id auth_token db db' e);
    creates = λ is_printable now id user_id code language timeout_s reserved db db' e.
        unchanged_funds _ _
          (credits-create is_printable now id user_id code language timeout_s reserved db db' e);
    ensures = λ now user_id db. ensure_user-IsSolvent rates now user_id none db some_funds;
    deducts = λ now user_id amount db. deduct-IsSolvent rates now user_id amount db;
    credits = λ now user_id amount db. credit-IsSolvent rates now user_id amount db;
    beats = λ now id db h. h;
    adopts = λ now id entry db h. h;
    restricts = λ id r db. unchanged_funds _ _ (credits-restriction id r db);
  }
