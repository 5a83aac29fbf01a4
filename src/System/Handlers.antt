-- ===== src/System/Handlers.antt =====
-- What the handlers of coordinator/websocket.py and the endpoints of coordinator/main.py keep.
use the_grid_x.Base.{
  ℕ, ◌≡◌, refl, ◌⊎◌, Bool, Option, none, some, [], ◌∷◌, Text, Dict, inl, inr, Bool-cases,
  Option-cases,
}
use the_grid_x.Database.{
  Db, Job, idle, Result, ok, raise, Exception, db_upsert_worker, db_get_worker,
}
use the_grid_x.Credits.{Rates}
use the_grid_x.State.{State}
use the_grid_x.Websocket.{
  Greeting, Outcome, continues, closed, failed, authenticate, restriction_of, reject, admit,
  handle_hello, Incoming, not_json, not_object, heartbeat, job_log, unknown, hello, job_started,
  job_result, handle_known, refresh, handle_other, after_hello, handle_message, receive,
  requeue_all, cleanup,
}
use the_grid_x.System.Stable.{
  IsRouted, IsStable, dispatch-Stable, on_job_started-Stable, on_job_result-Stable,
}

pub Result-cases :
    {A : Type 0} (r : Result A) → ((a : A) × (r ≡ ok a)) ⊎ ((e : Exception) × (r ≡ raise e))
Result-cases (ok a) = inl (a, refl)
Result-cases (raise e) = inr (e, refl)

module _ (P : Db → Type 0) (routed : IsRouted P) where
  requeue_all-Stable : (rows : Dict Job) (s : State) → P s.db → P (requeue_all rows s).db
  unfolding requeue_all
  requeue_all-Stable [] s h = h
  requeue_all-Stable ((id, job) ∷ rows) s h = requeue_all-Stable rows _ (routed.requeues id s.db h)

  pub cleanup-Stable : (o : Option Text) (s : State) → P s.db → P (cleanup o s).db
  unfolding cleanup
  cleanup-Stable none s h = h
  cleanup-Stable (some worker_id) s h = requeue_all-Stable _ _ (routed.leaves worker_id s.db h)

module _ (rates : Rates) (P : Db → Type 0) (stable : IsStable rates P) where
  module _ (delivers : ℕ → Bool) (now : ℕ) (ws : ℕ) (peer_ip : Text) where
    admit-Stable :
        (worker_id : Text) (g : Greeting) (s : State)
        → P s.db
        → P (admit delivers now ws peer_ip worker_id g s).1.db
    unfolding admit
    admit-Stable worker_id g s h =
        elim (Result-cases
          (db_upsert_worker now worker_id peer_ip g.caps idle g.owner_id g.auth_token s.db)) [
            | inr (e, raised) ↦ rw (raised, admit) h
            | inl (db', written) ↦
                let h' : P db' =
                  stable.joins now worker_id peer_ip g.caps idle g.owner_id g.auth_token s.db db'
                    written h in
                rw (written, admit)
                  (elim (Bool-cases (delivers ws)) [
                    | inl sent ↦ rw sent h'
                    | inr lost ↦ rw lost h'
                  ])
          ]

    handle_hello-Stable :
        (g : Greeting) (current : Option Text) (s : State)
        → P s.db
        → P (handle_hello delivers now ws peer_ip g current s).2.db
    unfolding handle_hello reject
    handle_hello-Stable g current s h = elim (Option-cases (authenticate g s.db)) [
      | inl e ↦ rw (e, handle_hello) h
      | inr (worker_id, e) ↦
          rw (e, handle_hello)
            (elim (Option-cases (restriction_of (db_get_worker worker_id s.db))) [
              | inl free ↦ rw free (admit-Stable worker_id g s h)
              | inr (r, barred) ↦ rw barred h
            ])
    ]

  module _ (coordinator_owner : Text) (delivers : ℕ → Bool) (now : ℕ) where
    handle_known-Stable :
        (worker_id : Text) (m : Incoming) (s : State)
        → P s.db
        → P (handle_known rates coordinator_owner delivers now worker_id m s).1.db
    unfolding handle_known
    handle_known-Stable worker_id not_json s h = h
    handle_known-Stable worker_id not_object s h = h
    handle_known-Stable worker_id heartbeat s h = h
    handle_known-Stable worker_id job_log s h = h
    handle_known-Stable worker_id unknown s h = h
    handle_known-Stable worker_id (hello g) s h = h
    handle_known-Stable worker_id (job_started none) s h = h
    handle_known-Stable worker_id (job_started (some id)) s h =
        on_job_started-Stable rates P stable now id s h
    handle_known-Stable worker_id (job_result none none out err duration) s h = h
    handle_known-Stable worker_id (job_result (some id) none out err duration) s h = h
    handle_known-Stable worker_id (job_result none (some code) out err duration) s h =
        dispatch-Stable P stable.routes coordinator_owner delivers now s h
    handle_known-Stable worker_id (job_result (some id) (some code) out err duration) s h =
        dispatch-Stable P stable.routes coordinator_owner delivers now _
          (on_job_result-Stable rates P stable now id worker_id code out err duration s h)

    handle_other-Stable :
        (o : Option Text) (m : Incoming) (s : State)
        → P s.db
        → P (handle_other rates coordinator_owner delivers now o m s).2.db
    unfolding handle_other refresh
    handle_other-Stable none m s h = h
    handle_other-Stable (some worker_id) m s h =
        handle_known-Stable worker_id m _ (stable.routes.status now worker_id _ s.db h)

    module _ (ws : ℕ) (peer_ip : Text) where
      after_hello-Stable :
          (r : Outcome × Option Text × State)
          → P r.2.db
          → P (after_hello rates coordinator_owner delivers now ws peer_ip r).2.db
      after_hello-Stable (continues, id, s) h =
          dispatch-Stable P stable.routes coordinator_owner delivers now s h
      after_hello-Stable (closed, id, s) h = h
      after_hello-Stable (failed, id, s) h = h

      handle_message-Stable :
          (m : Incoming) (current : Option Text) (s : State)
          → P s.db
          → P (handle_message rates coordinator_owner delivers now ws peer_ip m current s).2.db
      unfolding handle_message
      handle_message-Stable not_json current s h = h
      handle_message-Stable not_object current s h = h
      handle_message-Stable (hello g) current s h =
          after_hello-Stable _ (handle_hello-Stable delivers now ws peer_ip g current s h)
      handle_message-Stable heartbeat current s h = handle_other-Stable current heartbeat s h
      handle_message-Stable job_log current s h = handle_other-Stable current job_log s h
      handle_message-Stable unknown current s h = handle_other-Stable current unknown s h
      handle_message-Stable (job_started id) current s h =
          handle_other-Stable current (job_started id) s h
      handle_message-Stable (job_result id code out err duration) current s h =
          handle_other-Stable current (job_result id code out err duration) s h

      closing-Stable :
          (r : Outcome × Option Text × State)
          → P r.2.db
          → (let after : State = elim r.0 [ failed ↦ cleanup r.1 r.2 | _ ↦ r.2 ] in P after.db)
      closing-Stable (failed, id, s) h = cleanup-Stable P stable.routes id s h
      closing-Stable (continues, id, s) h = h
      closing-Stable (closed, id, s) h = h

      pub receive-Stable :
          (m : Incoming) (current : Option Text) (s : State)
          → P s.db
          → P (receive rates coordinator_owner delivers now ws peer_ip m current s).db
      unfolding receive
      receive-Stable m current s h = closing-Stable _ (handle_message-Stable m current s h)
