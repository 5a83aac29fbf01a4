-- ===== src/Credits/Settlement.antt =====
-- What `settle_job` does to the accounts: who is paid, how much, and what the sum of balances gains.
use the_grid_x.Base.{
  ℕ, ◌≡◌, refl, ℤ, pos, ◌+ℤ◌, ◌-ℤ◌, ◌≤ℤ◌, leb_ℤ, ltb_ℤ, le_max_left, max-eq_right, false, ◌&&◌, not,
  Option, none, some, [], ◌∷◌, Text, strip, is_empty, arith, int_laws, if◌then◌else◌, Bool-cases,
  inl, inr,
}
use the_grid_x.Database.{Db, Job, db_get_job}
use the_grid_x.Credits.Pricing.{Rates, compute_cost, compute_reward}
use the_grid_x.Credits.Bounds.{IsSensible, compute_cost_bounds, compute_reward_bounds}
use the_grid_x.Credits.Settle.{
  spent_row, earned_row, add_spent, add_earned, reserved_of, refund_of, pay_refund, note_spent,
  pay_owner, record_cost, settle_row, settle_job,
}
use the_grid_x.Credits.Totals.{total, sum-modify_same, total-credit}

-- What is paid to `owner_id` of an amount that is due to it: all, or nothing where there is no id.
abbrev pub due_to : Text → ℤ → ℤ
due_to user_id amount = if is_empty user_id then pos 0 else amount

abbrev pub due_to_owner : Option Text → ℤ → ℤ
due_to_owner none reward = pos 0
due_to_owner (some owner) reward = due_to (strip owner) reward

-- Where the code pays nothing, nothing is due.
due_to_nothing :
    (user_id : Text) (amount sum : ℤ)
    → pos 0 ≤ℤ amount
    → (ltb_ℤ (pos 0) amount && not (is_empty user_id)) ≡ false
    → sum ≡ sum +ℤ due_to user_id amount
due_to_nothing [] amount sum h e = omega int_laws
due_to_nothing (c ∷ u) amount sum h e =
    let nothing : amount ≤ℤ pos 0 = ground arith in omega (int_laws, nothing)

refund_of-nonneg :
    (rates : Rates) (job : Job) (duration : Option ℤ) → pos 0 ≤ℤ refund_of rates job duration
unfolding refund_of
refund_of-nonneg rates job duration =
    le_max_left (pos 0) (reserved_of rates job -ℤ compute_cost rates duration)

refund_of_covered :
    (rates : Rates) (job : Job) (duration : Option ℤ)
    → compute_cost rates duration ≤ℤ reserved_of rates job
    → refund_of rates job duration ≡ reserved_of rates job -ℤ compute_cost rates duration
unfolding refund_of
refund_of_covered rates job duration h =
    max-eq_right (pos 0) (reserved_of rates job -ℤ compute_cost rates duration) (omega int_laws)

payout_le :
    (sum refund share cost reserved : ℤ)
    → refund ≤ℤ (reserved -ℤ cost)
    → share ≤ℤ cost
    → (sum +ℤ refund) +ℤ share ≤ℤ sum +ℤ reserved
payout_le sum refund share cost reserved h k = omega int_laws

due_to_bounds :
    (user_id : Text) (amount : ℤ)
    → pos 0 ≤ℤ amount
    → (pos 0 ≤ℤ due_to user_id amount) × (due_to user_id amount ≤ℤ amount)
due_to_bounds [] amount h = omega arith
due_to_bounds (c ∷ u) amount h = omega arith

due_to_owner_bounds :
    (owner : Option Text) (amount : ℤ) → pos 0 ≤ℤ amount → due_to_owner owner amount ≤ℤ amount
due_to_owner_bounds none amount h = h
due_to_owner_bounds (some owner) amount h = (due_to_bounds (strip owner) amount h).1

module _ (rates : Rates) (now : ℕ) where
  total-pay_refund :
      (user_id : Text) (refund : ℤ) (db : Db)
      → pos 0 ≤ℤ refund
      → total (pay_refund rates now user_id refund db) ≡ total db +ℤ due_to user_id refund
  unfolding pay_refund
  total-pay_refund user_id refund db h =
      elim (Bool-cases (ltb_ℤ (pos 0) refund && not (is_empty user_id))) [
        | inl due ↦
            let some_due : leb_ℤ refund (pos 0) ≡ false = ground arith in
            let some_id : is_empty user_id ≡ false = ground arith in
            rw due (rw (total-credit rates now user_id refund db) (rw (some_due, some_id)))
        | inr none_due ↦ rw none_due (due_to_nothing user_id refund (total db) h none_due)
      ]

  total-note_spent :
      (user_id : Text) (cost : ℤ) (db : Db) → total (note_spent now user_id cost db) ≡ total db
  unfolding note_spent add_spent
  total-note_spent user_id cost db =
      elim (Bool-cases (ltb_ℤ (pos 0) cost && not (is_empty user_id))) [
        | inl due ↦
            rw due (sum-modify_same user_id (spent_row now cost) db.user_credits (λ r. refl))
        | inr none_due ↦ rw none_due
      ]

  total-pay_owner :
      (owner : Option Text) (reward : ℤ) (db : Db)
      → pos 0 ≤ℤ reward
      → total (pay_owner rates now owner reward db) ≡ total db +ℤ due_to_owner owner reward
  unfolding pay_owner add_earned
  total-pay_owner none reward db h = omega int_laws
  total-pay_owner (some owner) reward db h =
      elim (Bool-cases (ltb_ℤ (pos 0) reward && not (is_empty (strip owner)))) [
        | inl due ↦
            let some_due : leb_ℤ reward (pos 0) ≡ false = ground arith in
            let some_id : is_empty (strip owner) ≡ false = ground arith in
            rw due (
              rw (sum-modify_same (strip owner) (earned_row now reward) _ (λ r. refl))
                (rw (total-credit rates now (strip owner) reward db) (rw (some_due, some_id))))
        | inr none_due ↦ rw none_due (due_to_nothing (strip owner) reward (total db) h none_due)
      ]

  -- Where the rates make sense (no negative cost per second and no negative initial balance, a
  -- positive MIN_COST that is at most MAX_COST, a positive default timeout, and a reward ratio between
  -- 0 and 1), settling a job that the table holds adds to the sum of all balances the refund, where the stripped user id is not
  -- empty, and the reward, where the worker's owner is known and its stripped id is not empty;
  -- nothing else.
  pub total-settle_job :
      (job_id : Text) (owner : Option Text) (duration : Option ℤ) (db : Db) (job : Job)
      → IsSensible rates
      → db_get_job job_id db ≡ some job
      → total (settle_job rates now job_id owner duration db)
        ≡ (total db +ℤ due_to (strip job.user_id) (refund_of rates job duration))
          +ℤ due_to_owner owner (compute_reward rates (compute_cost rates duration))
  unfolding settle_job settle_row record_cost
  total-settle_job job_id owner duration db job sensible e =
      let cost = compute_cost rates duration in
      let (low, high) = compute_cost_bounds rates sensible duration in
      let floor = sensible.min_pos in
      let (earns, _) = compute_reward_bounds rates sensible cost (omega arith) in
      rw (e, settle_job)
        (rw (total-pay_owner owner (compute_reward rates cost) _ earns) (
          rw (total-note_spent (strip job.user_id) cost _) (
            rw (
              total-pay_refund (strip job.user_id) (refund_of rates job duration) db
                (refund_of-nonneg rates job duration)))))

  -- Where the rates make sense (no negative cost per second and no negative initial balance, a
  -- positive MIN_COST that is at most MAX_COST, a positive default timeout, and a reward ratio between
  -- 0 and 1), a settlement of a job that the table holds and whose actual cost is covered by the
  -- reserve pays out no more than the reserve, refund and reward together.
  pub settle_job-le-reserve :
      (job_id : Text) (owner : Option Text) (duration : Option ℤ) (db : Db) (job : Job)
      → IsSensible rates
      → db_get_job job_id db ≡ some job
      → compute_cost rates duration ≤ℤ reserved_of rates job
      → total (settle_job rates now job_id owner duration db) ≤ℤ total db +ℤ reserved_of rates job
  settle_job-le-reserve job_id owner duration db job sensible e covered =
      let cost = compute_cost rates duration in
      let (low, high) = compute_cost_bounds rates sensible duration in
      let floor = sensible.min_pos in
      let (earns, part) = compute_reward_bounds rates sensible cost (omega arith) in
      let (some_refund, refund_le) =
        due_to_bounds (strip job.user_id) (refund_of rates job duration)
          (refund_of-nonneg rates job duration) in
      let rest = refund_of_covered rates job duration covered in
      let reward_le = due_to_owner_bounds owner (compute_reward rates cost) earns in
      let fits : due_to (strip job.user_id) (refund_of rates job duration)
          ≤ℤ (reserved_of rates job -ℤ cost) =
        rw (← rest) refund_le in
      rw (total-settle_job job_id owner duration db job sensible e)
        (payout_le (total db) _ _ cost (reserved_of rates job) fits (omega arith))

  -- Where the rates make sense (no negative cost per second and no negative initial balance, a
  -- positive MIN_COST that is at most MAX_COST, a positive default timeout, and a reward ratio between
  -- 0 and 1), the table holds the job, the stripped id of the worker's owner is not empty, and the
  -- reward for the reported duration exceeds the reserve, the settlement pays out more than the
  -- reserve: credits come from nowhere.
  pub settle_job_mints :
      (job_id : Text) (owner : Text) (duration : Option ℤ) (db : Db) (job : Job)
      → IsSensible rates
      → db_get_job job_id db ≡ some job
      → is_empty (strip owner) ≡ false
      → ¬ (compute_reward rates (compute_cost rates duration) ≤ℤ reserved_of rates job)
      → ¬ (
          total (settle_job rates now job_id (some owner) duration db)
          ≤ℤ total db +ℤ reserved_of rates job)
  settle_job_mints job_id owner duration db job sensible e known more =
      let (some_refund, refund_le) =
        due_to_bounds (strip job.user_id) (refund_of rates job duration)
          (refund_of-nonneg rates job duration) in
      rw (total-settle_job job_id (some owner) duration db job sensible e)
        (rw known (omega (int_laws, some_refund)))
