-- ===== src/System/Untouched.antt =====
-- The operations of coordinator/credit_manager.py, and the insertion of a job, leave the table of
-- the workers as it is.
use the_grid_x.Base.{
  ℕ, ℤ, pos, ◌≡◌, refl, Bool, Option, none, some, Text, lookup, inl, inr, arith, Option-cases,
  strip,
}
use the_grid_x.Database.{Db, ok, db_create_job, db_get_job}
use the_grid_x.Credits.{
  Rates, ensure_user, deduct, credit, settle_job, settle_row, pay_refund, note_spent, pay_owner,
  record_cost, add_spent, add_earned,
}

pub workers-create :
    (is_printable : ℕ → Bool) (now : ℕ) (id user_id code language : Text) (timeout_s reserved : ℤ)
    (db db' : Db)
    → db_create_job is_printable now id user_id code language timeout_s reserved db ≡ ok db'
    → db'.workers ≡ db.workers
unfolding db_create_job
workers-create is_printable now id user_id code language timeout_s reserved db db' e = ground arith

module _ (rates : Rates) (now : ℕ) where
  pub workers-ensure_user :
      (user_id : Text) (initial : Option ℤ) (db : Db)
      → (ensure_user rates now user_id initial db).1.workers ≡ db.workers
  unfolding ensure_user
  workers-ensure_user user_id initial db = elim (Option-cases (lookup user_id db.user_credits)) [
    | inl e ↦ rw (e, ensure_user)
    | inr (row, e) ↦ rw (e, ensure_user)
  ]

  pub workers-deduct :
      (user_id : Text) (amount : ℤ) (db : Db)
      → (deduct now user_id amount db).1.workers ≡ db.workers
  unfolding deduct
  workers-deduct user_id amount db = ground arith

  pub workers-credit :
      (user_id : Text) (amount : ℤ) (db : Db)
      → (credit rates now user_id amount db).workers ≡ db.workers
  unfolding credit
  workers-credit user_id amount db = ground (arith, workers-ensure_user user_id (some (pos 0)) db)

  workers-pay_refund :
      (user_id : Text) (amount : ℤ) (db : Db)
      → (pay_refund rates now user_id amount db).workers ≡ db.workers
  unfolding pay_refund
  workers-pay_refund user_id amount db = ground (arith, workers-credit user_id amount db)

  workers-note_spent :
      (user_id : Text) (amount : ℤ) (db : Db)
      → (note_spent now user_id amount db).workers ≡ db.workers
  unfolding note_spent add_spent
  workers-note_spent user_id amount db = ground arith

  workers-pay_owner :
      (owner : Option Text) (amount : ℤ) (db : Db)
      → (pay_owner rates now owner amount db).workers ≡ db.workers
  unfolding pay_owner add_earned
  workers-pay_owner none amount db = refl
  workers-pay_owner (some owner) amount db = ground (arith, workers-credit (strip owner) amount db)

  pub workers-settle_job :
      (id : Text) (owner : Option Text) (duration : Option ℤ) (db : Db)
      → (settle_job rates now id owner duration db).workers ≡ db.workers
  unfolding settle_job settle_row record_cost
  workers-settle_job id owner duration db = elim (Option-cases (db_get_job id db)) [
    | inl e ↦ rw (e, settle_job)
    | inr (job, e) ↦
        rw (e, settle_job)
          (rw (workers-pay_owner owner _ _)
            (rw (workers-note_spent _ _ _) (rw (workers-pay_refund _ _ db))))
  ]
