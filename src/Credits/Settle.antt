-- ===== src/Credits/Settle.antt =====
-- coordinator/credit_manager.py: `settle_job`, its steps in the order of the code.
use the_grid_x.Base.{
  ℕ, ℤ, pos, ◌+ℤ◌, ◌-ℤ◌, leb_ℤ, ltb_ℤ, max_ℤ, not, ◌&&◌, Option, none, some, Text, strip, is_empty,
  modify, if◌then◌else◌, or_else,
}
use the_grid_x.Database.{Db, Job, UserCredits, db_get_job}
use the_grid_x.Credits.Pricing.{Rates, compute_cost, compute_reward}
use the_grid_x.Credits.Balance.{credit}

abbrev pub spent_row : (now : ℕ) → ℤ → UserCredits → UserCredits
spent_row now amount row = record row {
  total_spent = some (or_else row.total_spent (pos 0) +ℤ amount);
  last_updated = now;
}

abbrev pub earned_row : (now : ℕ) → ℤ → UserCredits → UserCredits
earned_row now amount row = record row {
  total_earned = some (or_else row.total_earned (pos 0) +ℤ amount);
  last_updated = now;
}

-- `total_spent=COALESCE(total_spent,0)+?`
unfoldable pub add_spent : (now : ℕ) → Text → ℤ → Db → Db
add_spent now user_id amount db = record db {
  user_credits = modify user_id (spent_row now amount) db.user_credits;
}

-- `total_earned=COALESCE(total_earned,0)+?`
unfoldable pub add_earned : (now : ℕ) → Text → ℤ → Db → Db
add_earned now user_id amount db = record db {
  user_credits = modify user_id (earned_row now amount) db.user_credits;
}

-- The reserve of a job: what its `cost` column holds, or MAX_COST if that is not positive.
unfoldable pub reserved_of : Rates → Job → ℤ
reserved_of rates job = if leb_ℤ job.cost (pos 0) then rates.max_cost else job.cost

unfoldable pub refund_of : Rates → Job → Option ℤ → ℤ
refund_of rates job duration_seconds =
    max_ℤ (pos 0) (reserved_of rates job -ℤ compute_cost rates duration_seconds)

-- "Refund unused reserve to submitter"
unfoldable pub pay_refund : Rates → (now : ℕ) → (user_id : Text) (refund : ℤ) → Db → Db
pay_refund rates now user_id refund db =
    if ltb_ℤ (pos 0) refund && not (is_empty user_id)
    then credit rates now user_id refund db
    else db

-- "Update total_spent for submitter"
unfoldable pub note_spent : (now : ℕ) → (user_id : Text) (actual_cost : ℤ) → Db → Db
note_spent now user_id actual_cost db =
    if ltb_ℤ (pos 0) actual_cost && not (is_empty user_id)
    then add_spent now user_id actual_cost db
    else db

-- "Pay worker owner and update total_earned"
unfoldable pub pay_owner : Rates → (now : ℕ) → (owner_id : Option Text) (reward : ℤ) → Db → Db
pay_owner rates now none reward db = db
pay_owner rates now (some owner) reward db =
    let owner_id = strip owner in
    if ltb_ℤ (pos 0) reward && not (is_empty owner_id)
    then add_earned now owner_id reward (credit rates now owner_id reward db)
    else db

abbrev pub cost_row : (duration_seconds : Option ℤ) (actual_cost : ℤ) → Job → Job
cost_row duration_seconds actual_cost job = record job {
  duration_seconds = some (or_else duration_seconds (pos 0));
  cost = actual_cost;
}

-- `UPDATE jobs SET duration_seconds=?, cost=?`
unfoldable pub record_cost :
    (job_id : Text) (duration_seconds : Option ℤ) (actual_cost : ℤ) → Db → Db
record_cost job_id duration_seconds actual_cost db = record db {
  jobs = modify job_id (cost_row duration_seconds actual_cost) db.jobs;
}

-- The settlement of a job that the table holds.
unfoldable pub settle_row :
    Rates
    → (now : ℕ) → (job_id : Text) (worker_owner_id : Option Text) (duration_seconds : Option ℤ)
    → Job
    → Db
    → Db
settle_row rates now job_id worker_owner_id duration_seconds job db =
    let user_id = strip job.user_id in
    let actual_cost = compute_cost rates duration_seconds in
    let refund = refund_of rates job duration_seconds in
    let reward = compute_reward rates actual_cost in
    let refunded = pay_refund rates now user_id refund db in
    let noted = note_spent now user_id actual_cost refunded in
    let paid = pay_owner rates now worker_owner_id reward noted in
    record_cost job_id duration_seconds actual_cost paid

unfoldable pub settle_job :
    Rates
    → (now : ℕ) → (job_id : Text) (worker_owner_id : Option Text) (duration_seconds : Option ℤ) → Db
    → Db
settle_job rates now job_id worker_owner_id duration_seconds db = elim (db_get_job job_id db) [
  | none ↦ db
  | some job ↦ settle_row rates now job_id worker_owner_id duration_seconds job db
]
