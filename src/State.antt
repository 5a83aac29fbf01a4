-- ===== src/State.antt =====
-- The coordinator's state: the database, and what its modules keep in memory (`workers_ws` of
-- coordinator/workers.py and `job_queue` of coordinator/scheduler.py). A websocket is a number; the
-- messages that were sent are logged, the latest last.
use the_grid_x.Base.{ℕ, List, [], Text, Dict}
use the_grid_x.Database.{Db, Caps, WorkerStatus, init_db}

-- An item of `workers_ws`.
pub record Entry : Type 0 where
  pub ws : ℕ
  pub caps : Caps
  pub status : WorkerStatus
  pub last_seen : ℕ
  pub owner_id : Text

-- What the coordinator sends to a worker.
pub data Message : Type 0 where
  assign_job : (job_id kind script : Text) (cpus memory_mb timeout_s : ℕ) → Message
  hello_ack : (worker_id : Text) → Message
  auth_error : (error : Text) → Message
  terminated : Message
  broadcast : (message : Text) → Message

pub record State : Type 0 where
  pub db : Db
  pub workers_ws : Dict Entry
  pub job_queue : List Text
  pub outbox : List (ℕ × Message)

-- The state of a coordinator that starts on a new database.
abbrev pub initial : State
initial = record { db = init_db; workers_ws = []; job_queue = []; outbox = [] }
