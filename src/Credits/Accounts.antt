-- ===== src/Credits/Accounts.antt =====
-- No balance falls below zero, whatever is deducted, credited or settled.
use the_grid_x.Base.{
  ℕ, ◌≡◌, ℤ, pos, ◌≤ℤ◌, leb_ℤ, ltb_ℤ, true, false, ◌&&◌, not, Option, none, some, or_else, Text,
  lookup, Values, strip, is_empty, arith, int_laws, Option-cases, Bool-cases, Values-insert,
  Values-modify, Values-modify_at, inl, inr,
}
use the_grid_x.Database.{Db, UserCredits, db_get_job}
use the_grid_x.Credits.Pricing.{Rates}
use the_grid_x.Credits.Balance.{ensure_user, covers, paid_row, credited_row, deduct, credit}
use the_grid_x.Credits.Settle.{
  spent_row, earned_row, add_spent, add_earned, pay_refund, note_spent, pay_owner, record_cost,
  settle_row, settle_job,
}

abbrev pub HasFunds : UserCredits → Type 0
HasFunds row = pos 0 ≤ℤ row.balance

-- No user owes the coordinator.
abbrev pub IsSolvent : Db → Type 0
IsSolvent db = Values HasFunds db.user_credits

module _ (rates : Rates) (now : ℕ) where
  -- Looking a user up, or creating one with no debt, leaves no debt.
  pub ensure_user-IsSolvent :
      (user_id : Text) (initial : Option ℤ) (db : Db)
      → pos 0 ≤ℤ or_else initial rates.default_initial_balance
      → IsSolvent db
      → IsSolvent (ensure_user rates now user_id initial db).1
  unfolding ensure_user
  ensure_user-IsSolvent user_id initial db some_funds h =
      elim (Option-cases (lookup user_id db.user_credits)) [
        | inl e ↦
            rw (e, ensure_user) (Values-insert HasFunds user_id _ db.user_credits some_funds h)
        | inr (row, e) ↦ rw (e, ensure_user) h
      ]

  covers-paid :
      (user_id : Text) (amount : ℤ) (db : Db)
      → covers user_id amount db ≡ true
      → (row : UserCredits) × (lookup user_id db.user_credits ≡ some row)
        × HasFunds (paid_row now amount row)
  unfolding covers
  covers-paid user_id amount db h = elim (Option-cases (lookup user_id db.user_credits)) [
    | inl e ↦ absurd (ground arith)
    | inr (row, e) ↦
        let fits : amount ≤ℤ row.balance = ground arith in (row, e, omega (int_laws, fits))
  ]

  -- A deduction keeps every balance at zero or more, whether it succeeds or not.
  pub deduct-IsSolvent :
      (user_id : Text) (amount : ℤ) (db : Db)
      → IsSolvent db
      → IsSolvent (deduct now user_id amount db).1
  unfolding deduct
  deduct-IsSolvent user_id amount db h = elim (Bool-cases (leb_ℤ amount (pos 0))) [
    | inl none_due ↦ rw none_due h
    | inr due ↦ rw due (elim (Bool-cases (covers user_id amount db)) [
      | inl enough ↦
          let (row, e, fits) = covers-paid user_id amount db enough in
          rw enough
            (Values-modify_at HasFunds user_id (paid_row now amount) db.user_credits row e fits h)
      | inr short ↦ rw short h
    ])
  ]

  credited-HasFunds :
      (amount : ℤ) (row : UserCredits)
      → leb_ℤ amount (pos 0) ≡ false
      → HasFunds row
      → HasFunds (credited_row now amount row)
  credited-HasFunds amount row due h =
      let more : pos 0 ≤ℤ amount = ground arith in omega (int_laws, more)

  -- A credit keeps every balance at zero or more.
  pub credit-IsSolvent :
      (user_id : Text) (amount : ℤ) (db : Db)
      → IsSolvent db
      → IsSolvent (credit rates now user_id amount db)
  unfolding credit
  credit-IsSolvent user_id amount db h = elim (Bool-cases (leb_ℤ amount (pos 0))) [
    | inl none_due ↦ rw none_due h
    | inr due ↦ rw due (
        Values-modify HasFunds user_id (credited_row now amount) _
          (λ row. credited-HasFunds amount row due)
          (ensure_user-IsSolvent user_id (some (pos 0)) db (omega arith) h))
  ]

  pay_refund-IsSolvent :
      (user_id : Text) (refund : ℤ) (db : Db)
      → IsSolvent db
      → IsSolvent (pay_refund rates now user_id refund db)
  unfolding pay_refund
  pay_refund-IsSolvent user_id refund db h =
      elim (Bool-cases (ltb_ℤ (pos 0) refund && not (is_empty user_id))) [
        | inl due ↦ rw due (credit-IsSolvent user_id refund db h)
        | inr none_due ↦ rw none_due h
      ]

  note_spent-IsSolvent :
      (user_id : Text) (cost : ℤ) (db : Db)
      → IsSolvent db
      → IsSolvent (note_spent now user_id cost db)
  unfolding note_spent add_spent
  note_spent-IsSolvent user_id cost db h =
      elim (Bool-cases (ltb_ℤ (pos 0) cost && not (is_empty user_id))) [
        | inl due ↦
            rw due
              (Values-modify HasFunds user_id (spent_row now cost) db.user_credits (λ row p. p) h)
        | inr none_due ↦ rw none_due h
      ]

  pay_owner-IsSolvent :
      (owner : Option Text) (reward : ℤ) (db : Db)
      → IsSolvent db
      → IsSolvent (pay_owner rates now owner reward db)
  unfolding pay_owner add_earned
  pay_owner-IsSolvent none reward db h = h
  pay_owner-IsSolvent (some owner) reward db h =
      elim (Bool-cases (ltb_ℤ (pos 0) reward && not (is_empty (strip owner)))) [
        | inl due ↦ rw due (
            Values-modify HasFunds (strip owner) (earned_row now reward) _ (λ row p. p)
              (credit-IsSolvent (strip owner) reward db h))
        | inr none_due ↦ rw none_due h
      ]

  -- Settling a job keeps every balance at zero or more, whatever duration is reported.
  pub settle_job-IsSolvent :
      (job_id : Text) (owner : Option Text) (duration : Option ℤ) (db : Db)
      → IsSolvent db
      → IsSolvent (settle_job rates now job_id owner duration db)
  unfolding settle_job settle_row record_cost
  settle_job-IsSolvent job_id owner duration db h = elim (Option-cases (db_get_job job_id db)) [
    | inl e ↦ rw (e, settle_job) h
    | inr (job, e) ↦
        rw (e, settle_job)
          (pay_owner-IsSolvent owner _ _ (
            note_spent-IsSolvent (strip job.user_id) _ _
              (pay_refund-IsSolvent (strip job.user_id) _ db h)))
  ]
