-- ===== src/System/Sound.antt =====
-- The queue and the registry under the operations on them: no job that waits is lost, and
-- `get_idle_worker_id` can read every connected worker.
use the_grid_x.Base.{
  ℕ, ℤ, ◌≡◌, ◌∙◌, sym, subst, Bool, true, false, Option, List, [], ◌∷◌, ◌++◌, Text, text_eq,
  text_eq_refl, Dict, lookup, insert, erase, All-erase, inl, inr, arith, Bool-cases, Option-cases,
  is_some,
}
use mathlib.Core.Bool.{false≢true}
use the_grid_x.Utils.{validate_uuid}
use the_grid_x.Database.{
  Db, Job, Caps, Result, ok, raise, WorkerStatus, is_queued, complete_row, recorded_worker,
  is_bindable, db_get_job, db_set_job_running, db_update_job_status, db_set_job_completed,
  db_complete_job, db_upsert_worker, db_register_user_auth, db_create_job,
}
use the_grid_x.Credits.{Rates, settle_job}
use the_grid_x.Credits.Replay.{jobs-settle_row}
use the_grid_x.State.{State, Entry}
use the_grid_x.System.Pending.{Pending, modify-Pending, insert-Pending}
use the_grid_x.System.Proper.{IsProper, IsProperRegistry}
use the_grid_x.System.Dispatching.{NoJobLost}

-- No job that waits is lost, and every connected worker can be read.
abbrev pub IsSound : State → Type 0
IsSound s = NoJobLost s × IsProperRegistry s.workers_ws

-- A row that an update makes "running", "completed" or "failed" does not wait.
pub started-Pending :
    (now : ℕ) (job_id : Text) (queue : List Text) (db : Db)
    → Pending queue db.jobs
    → Pending queue (db_set_job_running now job_id db).jobs
unfolding db_set_job_running db_update_job_status
started-Pending now job_id queue db h = elim (Bool-cases (validate_uuid job_id)) [
  | inl valid ↦
      rw (valid, db_set_job_running)
        (modify-Pending job_id queue _ db.jobs (λ job waits. absurd (cc)) h)
  | inr invalid ↦ rw (invalid, db_set_job_running) h
]

not_waiting :
    (now : ℕ) (stdout stderr : Text) (exit_code : ℤ) (job : Job)
    → is_queued (complete_row now stdout stderr exit_code job).status ≡ false
not_waiting now stdout stderr exit_code job = ground arith

pub completed-Pending :
    (now : ℕ) (job_id stdout stderr : Text) (exit_code : ℤ) (queue : List Text) (db : Db)
    → Pending queue db.jobs
    → Pending queue (db_set_job_completed now job_id stdout stderr exit_code db).1.jobs
unfolding db_set_job_completed db_complete_job
completed-Pending now job_id stdout stderr exit_code queue db h =
    let after =
      modify-Pending job_id queue (complete_row now stdout stderr exit_code) db.jobs
        (λ job waits.
          absurd (false≢true (sym (not_waiting now stdout stderr exit_code job) ∙ waits)))
        h in
    elim (Bool-cases (validate_uuid job_id)) [
      | inr invalid ↦ rw invalid h
      | inl valid ↦ rw valid (elim (Option-cases (recorded_worker (lookup job_id db.jobs))) [
        | inl e ↦ elim (Bool-cases (is_bindable exit_code)) [
          | inl fits ↦ rw (e, fits) after
          | inr over ↦ rw (e, over) h
        ]
        | inr (w, e) ↦ elim (Bool-cases (is_bindable exit_code)) [
          | inl fits ↦ rw (e, fits) after
          | inr over ↦ rw (e, over) h
        ]
      ])
    ]

pub settled-Pending :
    (rates : Rates) (now : ℕ) (job_id : Text) (owner : Option Text) (duration : Option ℤ)
    → (queue : List Text) (db : Db) → Pending queue db.jobs
    → Pending queue (settle_job rates now job_id owner duration db).jobs
unfolding settle_job
settled-Pending rates now job_id owner duration queue db h =
    elim (Option-cases (db_get_job job_id db)) [
      | inl e ↦ rw (e, settle_job) h
      | inr (job, e) ↦
          rw (e, settle_job)
            (rw (jobs-settle_row rates now job_id owner duration job db)
              (modify-Pending job_id queue _ db.jobs (λ j waits. waits) h))
    ]

pub jobs-upsert :
    (now : ℕ) (id ip : Text) (caps : Caps) (st : WorkerStatus) (owner_id auth_token : Text)
    (db db' : Db)
    → db_upsert_worker now id ip caps st owner_id auth_token db ≡ ok db'
    → db'.jobs ≡ db.jobs
unfolding db_upsert_worker db_register_user_auth
jobs-upsert now id ip caps st owner_id auth_token db db' e = ground arith

pub upsert_valid :
    (now : ℕ) (id ip : Text) (caps : Caps) (st : WorkerStatus) (owner_id auth_token : Text)
    (db db' : Db)
    → db_upsert_worker now id ip caps st owner_id auth_token db ≡ ok db'
    → validate_uuid id ≡ true
unfolding db_upsert_worker
upsert_valid now id ip caps st owner_id auth_token db db' e = ground arith

abbrev Queued : List Text → Result Db → Type 0
Queued queue (ok db) = Pending queue db.jobs
Queued queue (raise e) = Unit

create-Queued :
    (is_printable : ℕ → Bool) (now : ℕ) (id user_id code language : Text) (timeout_s reserved : ℤ)
    → (queue : List Text) (db : Db) → Pending queue db.jobs
    → Queued
        (queue ++ id ∷ [])
        (db_create_job is_printable now id user_id code language timeout_s reserved db)
unfolding db_create_job
create-Queued is_printable now id user_id code language timeout_s reserved queue db h =
    elim (Bool-cases (validate_uuid id)) [
      | inr invalid ↦ rw (invalid, Queued) tt
      | inl valid ↦ rw valid (elim (Bool-cases (is_some (lookup id db.jobs))) [
        | inl known ↦ rw (known, Queued) tt
        | inr new ↦ rw (new, Queued) (insert-Pending id queue db.jobs _ h)
      ])
    ]

pub created-Pending :
    (is_printable : ℕ → Bool) (now : ℕ) (id user_id code language : Text) (timeout_s reserved : ℤ)
    → (queue : List Text) (db db' : Db)
    → db_create_job is_printable now id user_id code language timeout_s reserved db ≡ ok db'
    → Pending queue db.jobs
    → Pending (queue ++ id ∷ []) db'.jobs
created-Pending is_printable now id user_id code language timeout_s reserved queue db db' e h =
    subst (Queued (queue ++ id ∷ [])) e
      (create-Queued is_printable now id user_id code language timeout_s reserved queue db h)

-- An item that is put under a key and taken out again leaves the others.
pub All-erase-insert :
    (k : Text) (v : Entry) (d : Dict Entry)
    → IsProperRegistry d
    → IsProperRegistry (erase k (insert k v d))
unfolding erase insert
All-erase-insert k v [] h = rw (text_eq_refl k) tt
All-erase-insert k v ((j, w) ∷ d) h = elim (Bool-cases (text_eq j k)) [
  | inl hit ↦ rw hit (rw hit (All-erase IsProper k d h.1))
  | inr miss ↦ rw miss (rw miss (h.0, All-erase-insert k v d h.1))
]
