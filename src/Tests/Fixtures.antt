-- ===== src/Tests/Fixtures.antt =====
-- The inputs that the tests share.
use the_grid_x.Base.{
  ℕ, ℤ, pos, ◌≡◌, sym, subst, Bool, true, Option, none, some, [], ◌∷◌, Text, text, text_eq,
  text_eq_iff, lookup, inl, inr, Bool-cases, arith, int_laws,
}
use mathlib.Core.Bool.{false≢true}
use the_grid_x.Database.{is_queued, Db, Job, queued, running, falsy, idle, init_db}
use the_grid_x.Credits.{default_rates}
use the_grid_x.Credits.Bounds.{IsSensible}
use the_grid_x.State.{Entry, State}
use the_grid_x.System.Pending.{Pending}

abbrev pub job_a : Text
job_a = text "00000000-0000-4000-8000-00000000000a"

abbrev pub worker_b : Text
worker_b = text "00000000-0000-4000-8000-00000000000b"

-- A job whose reserve is 6 credits.
abbrev pub waiting : Job
waiting = record {
  user_id = text "alice";
  code = text "print(1)";
  language = text "python";
  status = queued;
  worker_id = none;
  created_at = 1;
  started_at = none;
  completed_at = none;
  stdout = [];
  stderr = [];
  exit_code = none;
  timeout_s = pos 60;
  cost = pos 60000;
  duration_seconds = none;
}

abbrev pub on_worker : Job
on_worker = record waiting { status = running; worker_id = some worker_b; started_at = some 2 }

abbrev pub entry : Entry
entry = record { ws = 1; caps = falsy; status = idle; last_seen = 1; owner_id = text "bob" }

abbrev pub one_job : Db
one_job = record init_db { jobs = (job_a, waiting) ∷ [] }

-- One job waits, and one worker is idle.
abbrev pub ready : State
ready = record {
  db = one_job;
  workers_ws = (worker_b, entry) ∷ [];
  job_queue = job_a ∷ [];
  outbox = [];
}

-- The job runs on the worker.
abbrev pub working : State
working = record ready { db = record init_db { jobs = (job_a, on_worker) ∷ [] }; job_queue = [] }

abbrev pub all_deliver : ℕ → Bool
all_deliver ws = true

abbrev pub all_printable : ℕ → Bool
all_printable c = true

abbrev pub no_int : Text → Option ℤ
no_int s = none

pub default_rates-IsSensible : IsSensible default_rates
default_rates-IsSensible = record {
  rate_nonneg = omega (int_laws);
  min_pos = omega (int_laws);
  min_le_max = omega (int_laws);
  ratio_nonneg = omega (int_laws);
  ratio_le_one = omega (int_laws);
  timeout_pos = omega (int_laws);
  initial_nonneg = omega (int_laws);
}

pub ready-Pending : Pending ready.job_queue ready.db.jobs
unfolding lookup
ready-Pending id job valid found waits = elim (Bool-cases (text_eq job_a id)) [
  | inl same ↦ inl (sym ((text_eq_iff job_a id).0 same))
  | inr other ↦ let missing : none ≡ some job = rw other at found in absurd (cc)
]

pub working-Pending : Pending [] working.db.jobs
unfolding lookup
working-Pending id job valid found waits = elim (Bool-cases (text_eq job_a id)) [
  | inl same ↦
      let here : some on_worker ≡ some job = rw same at found in
      let row : on_worker ≡ job = ground arith in
      absurd (false≢true (subst (λ (j : Job). is_queued j.status ≡ true) (sym row) waits))
  | inr other ↦ let missing : none ≡ some job = rw other at found in absurd (cc)
]
