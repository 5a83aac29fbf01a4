-- ===== src/System/Steps.antt =====
-- The steps of the coordinator: one message of a worker (coordinator/websocket.py), the end of a
-- connection, one request (coordinator/main.py), one dispatch or one check of the watchdog
-- (coordinator/scheduler.py). Each step brings its own clock reading and its own network.
use the_grid_x.Base.{ℕ, ℤ, ◌≡◌, ◌≤ℤ◌, pos, Bool, Option, none, Text}
use the_grid_x.Utils.{Value}
use the_grid_x.Database.{Db, Restriction, init_db, db_get_worker_by_auth}
use the_grid_x.Credits.{Rates}
use the_grid_x.Credits.Accounts.{IsSolvent}
use the_grid_x.State.{State, initial}
use the_grid_x.Scheduler.{dispatch, watchdog}
use the_grid_x.Websocket.{Incoming, receive, cleanup}
use the_grid_x.Api.{
  SubmitBody, Registration, submit_job, register_worker_http, heartbeat_path, heartbeat_body,
  get_credits, admin_disconnect_worker, restrict_worker, admin_unsuspend_worker, admin_broadcast,
}
use the_grid_x.System.Stable.{IsStable, dispatch-Stable, watchdog-Stable}
use the_grid_x.System.Handlers.{receive-Stable, cleanup-Stable}
use the_grid_x.System.Endpoints.{
  submit_job-Stable, register_worker_http-Stable, heartbeat_path-Stable, heartbeat_body-Stable,
  get_credits-Stable, admin_disconnect_worker-Stable, restrict_worker-Stable,
  admin_unsuspend_worker-Stable, admin_broadcast-Stable,
}
use the_grid_x.System.Funds.{IsSolvent-IsStable}
use the_grid_x.System.Tokens.{IsTokenless, IsTokenless-IsStable, get_by_auth-tokenless}

-- What a run does not change: the settings and the functions that the code takes from elsewhere.
pub record Setting : Type 0 where
  pub rates : Rates
  pub coordinator_owner : Text
  pub is_printable : ℕ → Bool
  pub parse_int : Text → Option ℤ
  pub to_str : Value → Text

module _ (setting : Setting) where
  pub data Step : State → State → Type 0 where
    receives :
        (delivers : ℕ → Bool) (now ws : ℕ) (peer_ip : Text) (m : Incoming) (current : Option Text)
        (s : State)
        → Step s
            (receive setting.rates setting.coordinator_owner delivers now ws peer_ip m current s)
    closes : (current : Option Text) (s : State) → Step s (cleanup current s)
    dispatches :
        (delivers : ℕ → Bool) (now : ℕ) (s : State)
        → Step s (dispatch setting.coordinator_owner delivers now s)
    watches : (now heartbeat_timeout : ℕ) (s : State) → Step s (watchdog now heartbeat_timeout s)
    submits :
        (delivers : ℕ → Bool) (now : ℕ) (job_id : Text) (body : SubmitBody) (s : State)
        → Step s
            (submit_job setting.rates setting.is_printable setting.coordinator_owner delivers now
              job_id setting.parse_int body s).1
    registers :
        (now : ℕ) (body : Registration) (s : State)
        → Step s (register_worker_http setting.is_printable setting.to_str now body s).1
    beats : (now : ℕ) (worker_id : Text) (s : State) → Step s (heartbeat_path now worker_id s).1
    beats_body : (now : ℕ) (id : Value) (s : State) → Step s (heartbeat_body now id s).1
    asks :
        (now : ℕ) (user_id : Text) (s : State) → Step s (get_credits setting.rates now user_id s).1
    disconnects :
        (delivers : ℕ → Bool) (worker_id : Text) (s : State)
        → Step s (admin_disconnect_worker delivers worker_id s).1
    restricts :
        (delivers : ℕ → Bool) (now : ℕ) (r : Restriction) (worker_id : Text) (s : State)
        → Step s (restrict_worker delivers now r worker_id s).1
    unsuspends :
        (now : ℕ) (worker_id : Text) (s : State) → Step s (admin_unsuspend_worker now worker_id s).1
    announces :
        (delivers : ℕ → Bool) (message : Text) (s : State)
        → Step s (admin_broadcast setting.is_printable delivers message s).1

  -- The states that a coordinator can come to from a new database.
  pub data Reachable : State → Type 0 where
    start : Reachable initial
    step : (s s' : State) → Reachable s → Step s s' → Reachable s'

  module _ (P : Db → Type 0) (stable : IsStable setting.rates P) where
    Step-Stable : (s s' : State) → Step s s' → P s.db → P s'.db
    Step-Stable _ _ (receives delivers now ws ip m current s) h =
        receive-Stable setting.rates P stable setting.coordinator_owner delivers now ws ip m current
          s h
    Step-Stable _ _ (closes current s) h = cleanup-Stable P stable.routes current s h
    Step-Stable _ _ (dispatches delivers now s) h =
        dispatch-Stable P stable.routes setting.coordinator_owner delivers now s h
    Step-Stable _ _ (watches now limit s) h = watchdog-Stable P stable.routes now limit s h
    Step-Stable _ _ (submits delivers now id body s) h =
        submit_job-Stable setting.rates P stable setting.is_printable setting.coordinator_owner
          delivers now id setting.parse_int body s h
    Step-Stable _ _ (registers now body s) h =
        register_worker_http-Stable setting.rates P stable setting.is_printable setting.to_str now
          body s h
    Step-Stable _ _ (beats now id s) h = heartbeat_path-Stable setting.rates P stable now id s h
    Step-Stable _ _ (beats_body now id s) h =
        heartbeat_body-Stable setting.rates P stable now id s h
    Step-Stable _ _ (asks now id s) h = get_credits-Stable setting.rates P stable now id s h
    Step-Stable _ _ (disconnects delivers id s) h =
        admin_disconnect_worker-Stable setting.rates P stable delivers id s h
    Step-Stable _ _ (restricts delivers now r id s) h =
        restrict_worker-Stable setting.rates P stable delivers now r id s h
    Step-Stable _ _ (unsuspends now id s) h =
        admin_unsuspend_worker-Stable setting.rates P stable now id s h
    Step-Stable _ _ (announces delivers message s) h =
        admin_broadcast-Stable setting.rates P stable setting.is_printable delivers message s h

    Reachable-Stable : (s : State) → P init_db → Reachable s → P s.db
    Reachable-Stable s h start = h
    Reachable-Stable s h (step s₀ s' r taken) = Step-Stable s₀ s' taken (Reachable-Stable s₀ h r)

  -- Where DEFAULT_INITIAL_BALANCE is not negative, no sequence of steps from a new database leaves a
  -- user with a negative balance.
  pub Reachable-IsSolvent :
      (s : State) → pos 0 ≤ℤ setting.rates.default_initial_balance → Reachable s → IsSolvent s.db
  Reachable-IsSolvent s some_funds r =
      Reachable-Stable IsSolvent (IsSolvent-IsStable setting.rates some_funds) s tt r

  -- After any sequence of steps from a new database, `db_get_worker_by_auth` finds no worker,
  -- whatever owner and token it is asked for.
  pub get_worker_by_auth-Reachable :
      (s : State) (owner_id auth_token : Text)
      → Reachable s
      → db_get_worker_by_auth owner_id auth_token s.db ≡ none
  get_worker_by_auth-Reachable s owner_id auth_token r =
      get_by_auth-tokenless owner_id auth_token s.db
        (Reachable-Stable IsTokenless (IsTokenless-IsStable setting.rates) s tt r)
