-- ===== src/System/Endpoints.antt =====
-- What the endpoints of coordinator/main.py keep.
use the_grid_x.Base.{
  ℕ, ℤ, Bool, not, Option, none, some, Text, text, is_empty, strip, lookup, is_some, inl, inr,
  Bool-cases, Option-cases, ltb_ℤ, ◌&&◌, or_else,
}
use the_grid_x.Utils.{
  Value, null, boolean, int, real, str, container, validate_uuid, validate_user_id, sanitize_string,
}
use the_grid_x.Database.{Db, Restriction, idle, db_upsert_worker, db_create_job, db_get_worker}
use the_grid_x.Credits.{Rates, ensure_user, get_balance, deduct, get_max_reserve}
use the_grid_x.State.{State}
use the_grid_x.Registry.{disconnect_worker, broadcast_to_all_workers}
use the_grid_x.Api.{
  Order, SubmitBody, Submitted, Response, answer, http_error, validate, create_job, charge,
  submit_job, Registration, register_known, register_id, register_worker_http, heartbeat_path,
  heartbeat_body, get_credits, admin_disconnect_worker, is_truthy,
  ensure_worker_exists_for_restriction, restrict_worker, admin_unsuspend_worker, admin_broadcast,
}
use the_grid_x.System.Stable.{IsStable, dispatch-Stable}
use the_grid_x.System.Handlers.{Result-cases}

module _ (rates : Rates) (P : Db → Type 0) (stable : IsStable rates P) where
  module _ (is_printable : ℕ → Bool) (coordinator_owner : Text) (delivers : ℕ → Bool) (now : ℕ)
      (job_id : Text) where
    create_job-Stable :
        (order : Order) (reserved : ℤ) (s : State)
        → P s.db
        → P
            (create_job rates is_printable coordinator_owner delivers now job_id order reserved
              s).1.db
    unfolding create_job
    create_job-Stable order reserved s h =
        elim (Result-cases (
          db_create_job is_printable now job_id order.user_id order.code order.language
            order.timeout_seconds reserved s.db)) [
              | inr (e, raised) ↦
                  rw (raised, create_job) (stable.credits now order.user_id reserved s.db h)
              | inl (db', written) ↦
                  rw (written, create_job)
                    (dispatch-Stable P stable.routes coordinator_owner delivers now _ (
                      stable.creates is_printable now job_id order.user_id order.code order.language
                        order.timeout_seconds reserved s.db db' written h))
            ]

    charge-Stable :
        (order : Order) (reserved : ℤ) (s : State)
        → P s.db
        → P (charge rates is_printable coordinator_owner delivers now job_id order reserved s).1.db
    unfolding charge
    charge-Stable order reserved s h =
        let ensured = (ensure_user rates now order.user_id none s.db).1 in
        let h' : P ensured = stable.ensures now order.user_id s.db h in
        let h'' = stable.deducts now order.user_id reserved ensured h' in
        elim (Bool-cases (ltb_ℤ (get_balance order.user_id ensured) reserved)) [
          | inl short ↦ rw short h'
          | inr enough ↦
              rw enough (elim (Bool-cases (deduct now order.user_id reserved ensured).0) [
                | inl paid ↦ rw paid (create_job-Stable order reserved _ h'')
                | inr unpaid ↦ rw unpaid h''
              ])
        ]

    pub submit_job-Stable :
        (parse_int : Text → Option ℤ) (body : SubmitBody) (s : State)
        → P s.db
        → P
            (submit_job rates is_printable coordinator_owner delivers now job_id parse_int body
              s).1.db
    unfolding submit_job
    submit_job-Stable parse_int body s h = go (validate is_printable parse_int body)
      where
        go :
            (r : Response Order)
            → (let after : Response Submitted × State = elim r [
              | http_error e ↦ (http_error e, s)
              | answer order ↦
                  charge rates is_printable coordinator_owner delivers now job_id order
                    (get_max_reserve rates (some order.timeout_seconds))
                    s
            ] in
                P after.1.db)
        go (http_error e) = h
        go (answer order) = charge-Stable order _ s h

  module _ (is_printable : ℕ → Bool) (to_str : Value → Text) (now : ℕ) where
    register_known-Stable :
        (worker_id : Text) (body : Registration) (s : State)
        → P s.db
        → P (register_known is_printable to_str now worker_id body s).1.db
    unfolding register_known
    register_known-Stable worker_id body s h =
        let ip =
          sanitize_string is_printable to_str (or_else body.ip (str (text "http-worker"))) 255 in
        let owner_id =
          sanitize_string is_printable to_str (or_else body.owner_id (str (text ""))) 64 in
        elim (Bool-cases (not (is_empty owner_id) && not (validate_user_id (str owner_id)))) [
          | inl bad ↦ rw bad h
          | inr fine ↦
              rw fine
                (elim (Result-cases
                  (db_upsert_worker now worker_id ip body.caps idle owner_id (text "") s.db)) [
                    | inr (e, raised) ↦ rw raised h
                    | inl (db', written) ↦ rw written (
                        stable.joins now worker_id ip body.caps idle owner_id (text "") s.db db'
                          written h)
                  ])
        ]

    register_id-Stable :
        (id : Value) (body : Registration) (s : State)
        → P s.db
        → P (register_id is_printable to_str now id body s).1.db
    unfolding register_id
    register_id-Stable (str worker_id) body s h = elim (Bool-cases (validate_uuid worker_id)) [
      | inl valid ↦ rw valid (register_known-Stable worker_id body s h)
      | inr invalid ↦ rw invalid h
    ]
    register_id-Stable null body s h = h
    register_id-Stable (boolean b) body s h = h
    register_id-Stable (int z) body s h = h
    register_id-Stable (real z) body s h = h
    register_id-Stable (container filled) body s h = h

    pub register_worker_http-Stable :
        (body : Registration) (s : State)
        → P s.db
        → P (register_worker_http is_printable to_str now body s).1.db
    unfolding register_worker_http
    register_worker_http-Stable body s h = elim (Bool-cases (is_truthy body.id)) [
      | inl given ↦ rw given (register_id-Stable body.id body s h)
      | inr missing ↦ rw missing h
    ]

  pub heartbeat_path-Stable :
      (now : ℕ) (worker_id : Text) (s : State) → P s.db → P (heartbeat_path now worker_id s).1.db
  unfolding heartbeat_path
  heartbeat_path-Stable now worker_id s h = elim (Bool-cases (validate_uuid worker_id)) [
    | inl valid ↦ rw valid (stable.beats now worker_id s.db h)
    | inr invalid ↦ rw invalid h
  ]

  pub heartbeat_body-Stable :
      (now : ℕ) (id : Value) (s : State) → P s.db → P (heartbeat_body now id s).1.db
  unfolding heartbeat_body
  heartbeat_body-Stable now (str id) s h = elim (Bool-cases (is_empty id)) [
    | inl missing ↦ rw missing h
    | inr given ↦ rw given (heartbeat_path-Stable now id s h)
  ]
  heartbeat_body-Stable now null s h = h
  heartbeat_body-Stable now (boolean b) s h = h
  heartbeat_body-Stable now (int z) s h = h
  heartbeat_body-Stable now (real z) s h = h
  heartbeat_body-Stable now (container filled) s h = h

  pub get_credits-Stable :
      (now : ℕ) (user_id : Text) (s : State) → P s.db → P (get_credits rates now user_id s).1.db
  unfolding get_credits
  get_credits-Stable now user_id s h = elim (Bool-cases (validate_user_id (str user_id))) [
    | inl valid ↦ rw valid (stable.ensures now user_id s.db h)
    | inr invalid ↦ rw invalid h
  ]

  module _ (delivers : ℕ → Bool) where
    disconnect_worker-Stable :
        (worker_id : Text) (s : State) → P s.db → P (disconnect_worker delivers worker_id s).1.db
    unfolding disconnect_worker
    disconnect_worker-Stable worker_id s h = elim (Option-cases (lookup worker_id s.workers_ws)) [
      | inl e ↦ rw (e, disconnect_worker) h
      | inr (entry, e) ↦ rw (e, disconnect_worker) (stable.routes.leaves worker_id s.db h)
    ]

    pub admin_disconnect_worker-Stable :
        (worker_id : Text) (s : State)
        → P s.db
        → P (admin_disconnect_worker delivers worker_id s).1.db
    unfolding admin_disconnect_worker
    admin_disconnect_worker-Stable worker_id s h = elim (Bool-cases (validate_uuid worker_id)) [
      | inl valid ↦ rw valid (disconnect_worker-Stable worker_id s h)
      | inr invalid ↦ rw invalid h
    ]

  ensure_worker-Stable :
      (now : ℕ) (worker_id : Text) (s : State)
      → P s.db
      → P (ensure_worker_exists_for_restriction now worker_id s).1.db
  unfolding ensure_worker_exists_for_restriction
  ensure_worker-Stable now worker_id s h =
      elim (Bool-cases (is_some (db_get_worker worker_id s.db))) [
        | inl known ↦ rw known h
        | inr new ↦ rw new (elim (Option-cases (lookup worker_id s.workers_ws)) [
          | inl e ↦ rw e h
          | inr (entry, e) ↦ rw e (elim (Bool-cases (is_some (lookup worker_id s.db.workers))) [
            | inl listed ↦ rw listed h
            | inr unlisted ↦ rw unlisted (stable.adopts now worker_id entry s.db h)
          ])
        ])
      ]

  module _ (delivers : ℕ → Bool) (now : ℕ) where
    pub restrict_worker-Stable :
        (r : Restriction) (worker_id : Text) (s : State)
        → P s.db
        → P (restrict_worker delivers now r worker_id s).1.db
    unfolding restrict_worker
    restrict_worker-Stable r worker_id s h =
        let checked = ensure_worker_exists_for_restriction now worker_id s in
        let h' = ensure_worker-Stable now worker_id s h in
        elim (Bool-cases (validate_uuid worker_id)) [
          | inl valid ↦ rw valid (elim (Bool-cases checked.0) [
            | inl exists ↦ rw exists (
                stable.restricts worker_id (some r) _
                  (disconnect_worker-Stable delivers worker_id checked.1 h'))
            | inr missing ↦ rw missing h'
          ])
          | inr invalid ↦ rw invalid h
        ]

  pub admin_unsuspend_worker-Stable :
      (now : ℕ) (worker_id : Text) (s : State)
      → P s.db
      → P (admin_unsuspend_worker now worker_id s).1.db
  unfolding admin_unsuspend_worker
  admin_unsuspend_worker-Stable now worker_id s h =
      let checked = ensure_worker_exists_for_restriction now worker_id s in
      let h' = ensure_worker-Stable now worker_id s h in
      elim (Bool-cases (validate_uuid worker_id)) [
        | inl valid ↦ rw valid (elim (Bool-cases checked.0) [
          | inl exists ↦ rw exists (stable.restricts worker_id none _ h')
          | inr missing ↦ rw missing h'
        ])
        | inr invalid ↦ rw invalid h
      ]

  pub admin_broadcast-Stable :
      (is_printable : ℕ → Bool) (delivers : ℕ → Bool) (message : Text) (s : State)
      → P s.db
      → P (admin_broadcast is_printable delivers message s).1.db
  unfolding admin_broadcast broadcast_to_all_workers
  admin_broadcast-Stable is_printable delivers message s h =
      elim (Bool-cases (is_empty (strip message))) [
        | inl nothing ↦ rw nothing h
        | inr something ↦ rw something h
      ]
