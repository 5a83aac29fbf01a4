-- ===== src/System/Tokens.antt =====
-- The column `auth_token` of a worker's row is never set.
use the_grid_x.Base.{
  ℕ, ℤ, ◌≡◌, refl, sym, subst, not, Option, none, [], ◌∷◌, Text, is_empty, Dict, lookup, modify,
  insert, is_some, inl, inr, arith, Bool-cases, Option-cases, if◌then◌else◌, ◌&&◌, Values,
  Values-insert, Values-modify,
}
use the_grid_x.Utils.{validate_uuid}
use the_grid_x.Database.{
  Db, Caps, Worker, WorkerStatus, Restriction, Result, ok, raise, db_set_worker_status,
  db_set_worker_offline, db_set_job_assigned, db_assign_job_to_worker, db_set_job_running,
  db_update_job_status, db_set_job_completed, db_complete_job, recorded_worker, is_bindable,
  is_queued, release_row, db_upsert_worker, db_register_user_auth, db_set_worker_restriction,
  requeue_job, find_by_auth, db_get_worker_by_auth,
}
use the_grid_x.Credits.{Rates}
use the_grid_x.System.Stable.{IsRouted, IsStable}
use the_grid_x.System.Untouched.{
  workers-create, workers-ensure_user, workers-deduct, workers-credit, workers-settle_job,
}

abbrev pub HasNoToken : Worker → Type 0
HasNoToken w = w.auth_token ≡ none

abbrev pub IsTokenless : Db → Type 0
IsTokenless db = Values HasNoToken db.workers

find-tokenless :
    (owner_id auth_token : Text) (d : Dict Worker)
    → Values HasNoToken d
    → find_by_auth owner_id auth_token d ≡ none
unfolding find_by_auth
find-tokenless owner_id auth_token [] h = refl
find-tokenless owner_id auth_token ((id, w) ∷ d) (empty, h) =
    rw empty (ground (arith, find-tokenless owner_id auth_token d h))

pub get_by_auth-tokenless :
    (owner_id auth_token : Text) (db : Db)
    → IsTokenless db
    → db_get_worker_by_auth owner_id auth_token db ≡ none
unfolding db_get_worker_by_auth
get_by_auth-tokenless owner_id auth_token db h =
    ground (arith, find-tokenless owner_id auth_token db.workers h)

modify-tokenless :
    (id : Text) (f : Worker → Worker) (d : Dict Worker)
    → ((w : Worker) → (f w).auth_token ≡ w.auth_token)
    → Values HasNoToken d
    → Values HasNoToken (modify id f d)
modify-tokenless id f d same h = Values-modify HasNoToken id f d (λ w e. ground (arith, same w)) h

status-IsTokenless :
    (now : ℕ) (id : Text) (st : WorkerStatus) (db : Db)
    → IsTokenless db
    → IsTokenless (db_set_worker_status now id st db)
unfolding db_set_worker_status
status-IsTokenless now id st db h = elim (Bool-cases (validate_uuid id)) [
  | inl valid ↦ rw valid (modify-tokenless id _ db.workers (λ w. refl) h)
  | inr invalid ↦ rw invalid h
]

offline-IsTokenless :
    (id : Text) (db : Db) → IsTokenless db → IsTokenless (db_set_worker_offline id db)
unfolding db_set_worker_offline
offline-IsTokenless id db h = elim (Bool-cases (validate_uuid id)) [
  | inl valid ↦ rw valid (modify-tokenless id _ db.workers (λ w. refl) h)
  | inr invalid ↦ rw invalid h
]

restriction-IsTokenless :
    (id : Text) (r : Option Restriction) (db : Db)
    → IsTokenless db
    → IsTokenless (db_set_worker_restriction id r db).1
unfolding db_set_worker_restriction
restriction-IsTokenless id r db h = elim (Bool-cases (validate_uuid id)) [
  | inl valid ↦ rw valid (modify-tokenless id _ db.workers (λ w. refl) h)
  | inr invalid ↦ rw invalid h
]

assign-IsTokenless :
    (now : ℕ) (id wid : Text) (db : Db)
    → IsTokenless db
    → IsTokenless (db_assign_job_to_worker now id wid db).1
unfolding db_assign_job_to_worker
assign-IsTokenless now id wid db h = elim (Option-cases (lookup id db.jobs)) [
  | inl e ↦ rw (e, db_assign_job_to_worker) h
  | inr (job, e) ↦
      rw (e, db_assign_job_to_worker)
        (elim (Bool-cases (is_queued job.status)) [
          | inl waits ↦ rw waits (modify-tokenless wid _ db.workers (λ w. refl) h)
          | inr runs ↦ rw runs h
        ])
]

assigned-IsTokenless :
    (now : ℕ) (id wid : Text) (db : Db)
    → IsTokenless db
    → IsTokenless (db_set_job_assigned now id wid db).1
unfolding db_set_job_assigned
assigned-IsTokenless now id wid db h = elim (Bool-cases (validate_uuid id && validate_uuid wid)) [
  | inl valid ↦ rw valid (assign-IsTokenless now id wid db h)
  | inr invalid ↦ rw invalid h
]

workers-running :
    (now : ℕ) (id : Text) (db : Db) → (db_set_job_running now id db).workers ≡ db.workers
unfolding db_set_job_running db_update_job_status
workers-running now id db = ground arith

release-token : (code : ℤ) (w : Worker) → (release_row code w).auth_token ≡ w.auth_token
release-token code w = ground arith

completed-IsTokenless :
    (now : ℕ) (id stdout stderr : Text) (exit_code : ℤ) (db : Db)
    → IsTokenless db
    → IsTokenless (db_set_job_completed now id stdout stderr exit_code db).1
unfolding db_set_job_completed db_complete_job
completed-IsTokenless now id stdout stderr exit_code db h = elim (Bool-cases (validate_uuid id)) [
  | inr invalid ↦ rw invalid h
  | inl valid ↦ rw valid (elim (Option-cases (recorded_worker (lookup id db.jobs))) [
    | inl e ↦ elim (Bool-cases (is_bindable exit_code)) [
      | inl fits ↦ rw (e, fits) h
      | inr over ↦ rw (e, over) h
    ]
    | inr (w, e) ↦ elim (Bool-cases (is_bindable exit_code)) [
      | inl fits ↦ rw (e, fits) (modify-tokenless w _ db.workers (release-token exit_code) h)
      | inr over ↦ rw (e, over) h
    ]
  ])
]

pub workers-register :
    (now : ℕ) (user_id auth_token : Text) (db : Db)
    → (db_register_user_auth now user_id auth_token db).0.workers ≡ db.workers
unfolding db_register_user_auth
workers-register now user_id auth_token db = ground arith

rows-tokenless :
    (id : Text) (f : Worker → Worker) (new : Worker) (d : Dict Worker)
    → ((w : Worker) → (f w).auth_token ≡ w.auth_token)
    → HasNoToken new
    → Values HasNoToken d
    → Values HasNoToken (if is_some (lookup id d) then modify id f d else insert id new d)
rows-tokenless id f new d same empty h = elim (Bool-cases (is_some (lookup id d))) [
  | inl known ↦ rw known (modify-tokenless id f d same h)
  | inr unknown ↦ rw unknown (Values-insert HasNoToken id new d empty h)
]

abbrev Written : Result Db → Type 0
Written (ok db) = IsTokenless db
Written (raise e) = Unit

upsert-Written :
    (now : ℕ) (id ip : Text) (caps : Caps) (st : WorkerStatus) (owner_id auth_token : Text)
    (db : Db)
    → IsTokenless db
    → Written (db_upsert_worker now id ip caps st owner_id auth_token db)
unfolding db_upsert_worker
upsert-Written now id ip caps st owner_id auth_token db h = elim (Bool-cases (validate_uuid id)) [
  | inr invalid ↦ rw invalid tt
  | inl valid ↦ rw valid (elim (Bool-cases (not (is_empty auth_token) && not (is_empty owner_id))) [
    | inl named ↦ rw named (
        rw (workers-register now owner_id auth_token _)
          (rows-tokenless id _ _ db.workers (λ w. refl) refl h))
    | inr anonymous ↦ rw anonymous (rows-tokenless id _ _ db.workers (λ w. refl) refl h)
  ])
]

upsert-IsTokenless :
    (now : ℕ) (id ip : Text) (caps : Caps) (st : WorkerStatus) (owner_id auth_token : Text)
    (db db' : Db)
    → db_upsert_worker now id ip caps st owner_id auth_token db ≡ ok db'
    → IsTokenless db
    → IsTokenless db'
upsert-IsTokenless now id ip caps st owner_id auth_token db db' e h =
    subst Written e (upsert-Written now id ip caps st owner_id auth_token db h)

unchanged_tokens :
    (rows rows' : Dict Worker) → rows' ≡ rows → Values HasNoToken rows → Values HasNoToken rows'
unchanged_tokens rows rows' same = subst (Values HasNoToken) (sym same)

pub IsTokenless-IsRouted : IsRouted IsTokenless
unfolding requeue_job
IsTokenless-IsRouted = record {
  status = status-IsTokenless;
  gone = λ id db h. modify-tokenless id _ db.workers (λ w. refl) h;
  leaves = offline-IsTokenless;
  requeues = λ id db h. h;
  assigns = assigned-IsTokenless;
}

module _ (rates : Rates) where
  -- That no row has a token is kept by every operation on the database.
  pub IsTokenless-IsStable : IsStable rates IsTokenless
  unfolding requeue_job
  IsTokenless-IsStable = record {
    routes = IsTokenless-IsRouted;
    starts = λ now id db. unchanged_tokens _ _ (workers-running now id db);
    completes = completed-IsTokenless;
    settles = λ now id owner duration db.
        unchanged_tokens _ _ (workers-settle_job rates now id owner duration db);
    joins = upsert-IsTokenless;
    creates = λ is_printable now id user_id code language timeout_s reserved db db' e.
        unchanged_tokens _ _
          (workers-create is_printable now id user_id code language timeout_s reserved db db' e);
    ensures =
        λ now user_id db. unchanged_tokens _ _ (workers-ensure_user rates now user_id none db);
    deducts =
        λ now user_id amount db. unchanged_tokens _ _ (workers-deduct rates now user_id amount db);
    credits =
        λ now user_id amount db. unchanged_tokens _ _ (workers-credit rates now user_id amount db);
    beats = λ now id db h. modify-tokenless id _ db.workers (λ w. refl) h;
    adopts = λ now id entry db h. Values-insert HasNoToken id _ db.workers refl h;
    restricts = restriction-IsTokenless;
  }
