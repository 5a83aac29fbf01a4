-- ===== src/System/Requests.antt =====
-- The endpoints of coordinator/main.py and the watchdog keep the queue and the registry sound.
use the_grid_x.Base.{
  ℕ, ℤ, ◌≡◌, Bool, Option, none, some, [], ◌∷◌, ◌++◌, Text, lookup, All-erase, inl, inr, arith,
  Bool-cases, Option-cases, is_some, ltb_ℤ,
}
use the_grid_x.Utils.{str, validate_uuid, validate_user_id}
use the_grid_x.Database.{Db, Restriction, db_create_job, db_get_worker, db_set_worker_restriction}
use the_grid_x.Credits.{Rates, ensure_user, get_balance, deduct, get_max_reserve}
use the_grid_x.Credits.Replay.{jobs-credit}
use the_grid_x.State.{State}
use the_grid_x.Registry.{disconnect_worker, unregister_worker_ws}
use the_grid_x.Api.{
  Order, SubmitBody, Submitted, Response, answer, http_error, validate, create_job, charge,
  submit_job, heartbeat_path, get_credits, ensure_worker_exists_for_restriction, restricted,
}
use the_grid_x.System.Pending.{Pending}
use the_grid_x.System.Proper.{IsProper}
use the_grid_x.System.Dispatching.{dispatch-NoJobLost}
use the_grid_x.System.Requeue.{jobs-offline}
use the_grid_x.System.Handlers.{Result-cases}
use the_grid_x.System.Sound.{IsSound, created-Pending}

module _ (rates : Rates) (now : ℕ) where
  jobs-ensure_user :
      (user_id : Text) (initial : Option ℤ) (db : Db)
      → (ensure_user rates now user_id initial db).1.jobs ≡ db.jobs
  unfolding ensure_user
  jobs-ensure_user user_id initial db = elim (Option-cases (lookup user_id db.user_credits)) [
    | inl e ↦ rw (e, ensure_user)
    | inr (row, e) ↦ rw (e, ensure_user)
  ]

  jobs-deduct :
      (user_id : Text) (amount : ℤ) (db : Db) → (deduct now user_id amount db).1.jobs ≡ db.jobs
  unfolding deduct
  jobs-deduct user_id amount db = ground arith

module _ (rates : Rates) (is_printable : ℕ → Bool) (coordinator_owner : Text) (delivers : ℕ → Bool)
    (now : ℕ) (job_id : Text) where
  create_job-IsSound :
      (order : Order) (reserved : ℤ) (s : State)
      → IsSound s
      → IsSound
          (create_job rates is_printable coordinator_owner delivers now job_id order reserved s).1
  unfolding create_job
  create_job-IsSound order reserved s h =
      elim (Result-cases (
        db_create_job is_printable now job_id order.user_id order.code order.language
          order.timeout_seconds reserved s.db)) [
            | inr (e, raised) ↦
                rw (raised, create_job)
                  (rw (jobs-credit rates now order.user_id reserved s.db) h.0, h.1)
            | inl (db', written) ↦
                let queued =
                  created-Pending is_printable now job_id order.user_id order.code order.language
                    order.timeout_seconds reserved s.job_queue s.db db' written h.0 in
                rw (written, create_job)
                  (dispatch-NoJobLost coordinator_owner delivers now
                    (record s { db = db'; job_queue = s.job_queue ++ job_id ∷ [] }) queued h.1)
          ]

  charge-IsSound :
      (order : Order) (reserved : ℤ) (s : State)
      → IsSound s
      → IsSound (charge rates is_printable coordinator_owner delivers now job_id order reserved s).1
  unfolding charge
  charge-IsSound order reserved s h =
      let ensured = (ensure_user rates now order.user_id none s.db).1 in
      let h' : Pending s.job_queue ensured.jobs =
        rw (jobs-ensure_user rates now order.user_id none s.db) h.0 in
      let h'' : Pending s.job_queue (deduct now order.user_id reserved ensured).1.jobs =
        rw (jobs-deduct rates now order.user_id reserved ensured) h' in
      elim (Bool-cases (ltb_ℤ (get_balance order.user_id ensured) reserved)) [
        | inl short ↦ rw short (h', h.1)
        | inr enough ↦ rw enough (elim (Bool-cases (deduct now order.user_id reserved ensured).0) [
          | inl paid ↦ rw paid (create_job-IsSound order reserved _ (h'', h.1))
          | inr unpaid ↦ rw unpaid (h'', h.1)
        ])
      ]

  pub submit_job-IsSound :
      (parse_int : Text → Option ℤ) (body : SubmitBody) (s : State)
      → IsSound s
      → IsSound
          (submit_job rates is_printable coordinator_owner delivers now job_id parse_int body s).1
  unfolding submit_job
  submit_job-IsSound parse_int body s h = go (validate is_printable parse_int body)
    where
      go :
          (r : Response Order)
          → (let after : Response Submitted × State = elim r [
            | http_error e ↦ (http_error e, s)
            | answer order ↦
                charge rates is_printable coordinator_owner delivers now job_id order
                  (get_max_reserve rates (some order.timeout_seconds))
                  s
          ] in
              IsSound after.1)
      go (http_error e) = h
      go (answer order) = charge-IsSound order _ s h

module _ (worker_id : Text) (s : State) where
  pub heartbeat_path-IsSound : (now : ℕ) → IsSound s → IsSound (heartbeat_path now worker_id s).1
  unfolding heartbeat_path
  heartbeat_path-IsSound now h = elim (Bool-cases (validate_uuid worker_id)) [
    | inl valid ↦ rw valid h
    | inr invalid ↦ rw invalid h
  ]

  pub get_credits-IsSound :
      (rates : Rates) (now : ℕ) → IsSound s → IsSound (get_credits rates now worker_id s).1
  unfolding get_credits
  get_credits-IsSound rates now h = elim (Bool-cases (validate_user_id (str worker_id))) [
    | inl valid ↦ rw valid (rw (jobs-ensure_user rates now worker_id none s.db) h.0, h.1)
    | inr invalid ↦ rw invalid h
  ]

  pub disconnect_worker-IsSound :
      (delivers : ℕ → Bool) → IsSound s → IsSound (disconnect_worker delivers worker_id s).1
  unfolding disconnect_worker unregister_worker_ws
  disconnect_worker-IsSound delivers h = elim (Option-cases (lookup worker_id s.workers_ws)) [
    | inl e ↦ rw (e, disconnect_worker) h
    | inr (entry, e) ↦
        rw (e, disconnect_worker)
          (rw (jobs-offline worker_id s.db) h.0, All-erase IsProper worker_id s.workers_ws h.1)
  ]

  pub ensure_worker-IsSound :
      (now : ℕ) → IsSound s → IsSound (ensure_worker_exists_for_restriction now worker_id s).1
  unfolding ensure_worker_exists_for_restriction
  ensure_worker-IsSound now h = elim (Bool-cases (is_some (db_get_worker worker_id s.db))) [
    | inl known ↦ rw known h
    | inr new ↦ rw new (elim (Option-cases (lookup worker_id s.workers_ws)) [
      | inl e ↦ rw e h
      | inr (entry, e) ↦ rw e (elim (Bool-cases (is_some (lookup worker_id s.db.workers))) [
        | inl listed ↦ rw listed h
        | inr unlisted ↦ rw unlisted h
      ])
    ])
  ]

  pub restricted-IsSound : (r : Option Restriction) → IsSound s → IsSound (restricted worker_id r s)
  unfolding db_set_worker_restriction
  restricted-IsSound r h = elim (Bool-cases (validate_uuid worker_id)) [
    | inl valid ↦ rw valid h
    | inr invalid ↦ rw invalid h
  ]
