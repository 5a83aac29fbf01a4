-- ===== src/Database/Schema.antt =====
-- coordinator/database.py: `init_db`, the tables as dicts under their primary keys, and the two
-- ways in which an operation can end. A time is a number of milliseconds, an amount of credits or
-- of seconds counts ten-thousandths.
use the_grid_x.Base.{ℕ, ℤ, Bool, Option, [], Text, Dict}

pub data Exception : Type 0 where
  value_error integrity_error attribute_error : Exception

pub data Result {ℓ} (A : Type ℓ) : Type ℓ where
  ok : A → Result A
  raise : Exception → Result A

-- What `json.loads` gives as a worker's `caps`, or a string that holds JSON once more. Of a dict
-- only the truth value under "can_execute" matters.
pub data Caps : Type 0 where
  falsy other_value quoted_invalid quoted_other : Caps
  object quoted_object : (can_execute : Option Bool) → Caps

pub data JobStatus : Type 0 where
  queued running completed failed : JobStatus

pub data WorkerStatus : Type 0 where
  idle busy offline : WorkerStatus

pub data Restriction : Type 0 where
  banned suspended : Restriction

pub record Job : Type 0 where
  pub user_id : Text
  pub code : Text
  pub language : Text
  pub status : JobStatus
  pub worker_id : Option Text
  pub created_at : ℕ
  pub started_at : Option ℕ
  pub completed_at : Option ℕ
  pub stdout : Text
  pub stderr : Text
  pub exit_code : Option ℤ
  pub timeout_s : ℤ
  pub cost : ℤ
  pub duration_seconds : Option ℤ

pub record Worker : Type 0 where
  pub owner_id : Text
  pub ip : Text
  pub caps : Caps
  pub status : WorkerStatus
  pub auth_token : Option Text
  pub last_heartbeat : Option ℕ
  pub registered_at : ℕ
  pub jobs_completed : ℕ
  pub credits_earned : ℤ
  pub restriction : Option Restriction

-- The totals may be NULL in rows that an older schema left.
pub record UserCredits : Type 0 where
  pub balance : ℤ
  pub total_earned : Option ℤ
  pub total_spent : Option ℤ
  pub last_updated : ℕ

pub record UserAuth : Type 0 where
  pub auth_token : Text
  pub created_at : ℕ

pub record Db : Type 0 where
  pub jobs : Dict Job
  pub workers : Dict Worker
  pub user_credits : Dict UserCredits
  pub user_auth : Dict UserAuth

-- A new database: four empty tables.
abbrev pub init_db : Db
init_db = record { jobs = []; workers = []; user_credits = []; user_auth = [] }
