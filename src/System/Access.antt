-- ===== src/System/Access.antt =====
-- Who a connection is let in as: passwords (coordinator/websocket.py and coordinator/database.py)
-- and restrictions (coordinator/main.py).
use the_grid_x.Base.{
  ℕ, ◌≡◌, refl, Bool, true, Option, none, some, Text, text_eq_refl, lookup, lookup-insert,
  lookup-modify, lookup-erase, inl, inr, Bool-cases, Option-cases,
}
use mathlib.Core.Bool.{false≢true}
use the_grid_x.Utils.{validate_uuid}
use the_grid_x.Database.{
  Db, Worker, Restriction, offline, db_get_worker, db_set_worker_offline, db_set_worker_restriction,
}
use the_grid_x.State.{State}
use the_grid_x.Registry.{unregister_worker_ws, disconnect_worker}
use the_grid_x.Websocket.{
  Greeting, closed, authenticate, restriction_of, reason_of, reject, handle_hello,
}
use the_grid_x.Api.{
  adopted_row, answer, http_error, bad_request, not_found, ensure_worker_exists_for_restriction,
  restricted, restrict_worker,
}

-- A hello of a worker whose row is restricted is turned away, and changes no table.
hello_restricted :
    (delivers : ℕ → Bool) (now ws : ℕ) (peer_ip worker_id : Text) (g : Greeting)
    (current : Option Text)
    → (s : State) (r : Restriction) → authenticate g s.db ≡ some worker_id
    → restriction_of (db_get_worker worker_id s.db) ≡ some r
    → handle_hello delivers now ws peer_ip g current s
      ≡ (closed, some worker_id, reject delivers now ws peer_ip (reason_of r) s)
unfolding handle_hello
hello_restricted delivers now ws peer_ip worker_id g current s r known barred =
    rw (known, barred, handle_hello)

-- The worker's row, where there is one, is all that a restriction changes in it.
restriction-set :
    (worker_id : Text) (r : Restriction) (db : Db) (row : Worker)
    → validate_uuid worker_id ≡ true
    → lookup worker_id db.workers ≡ some row
    → restriction_of (db_get_worker worker_id (db_set_worker_restriction worker_id (some r) db).1)
      ≡ some r
unfolding db_get_worker db_set_worker_restriction
restriction-set worker_id r db row valid found =
    rw valid (rw (lookup-modify worker_id worker_id) (rw (text_eq_refl worker_id) (rw found refl)))

-- After `ensure_worker_exists_for_restriction` says so, the worker has a row.
ensure_worker-row :
    (now : ℕ) (worker_id : Text) (s : State)
    → validate_uuid worker_id ≡ true
    → (ensure_worker_exists_for_restriction now worker_id s).0 ≡ true
    → (row : Worker) × (lookup worker_id
          (ensure_worker_exists_for_restriction now worker_id s).1.db.workers
        ≡ some row)
unfolding ensure_worker_exists_for_restriction db_get_worker
ensure_worker-row now worker_id s valid exists =
    elim (Option-cases (lookup worker_id s.db.workers)) [
      | inr (row, e) ↦ (row, rw valid (rw e e))
      | inl e ↦ elim (Option-cases (lookup worker_id s.workers_ws)) [
        | inl e' ↦
            absurd (false≢true (rw (valid, e, e', ensure_worker_exists_for_restriction) at exists))
        | inr (entry, e') ↦ (
          adopted_row now entry,
          rw valid (
              rw e (
                rw e'
                  (rw e (rw (lookup-insert worker_id worker_id) (rw (text_eq_refl worker_id)))))),
        )
      ]
    ]

disconnect-row :
    (delivers : ℕ → Bool) (worker_id : Text) (s : State) (row : Worker)
    → lookup worker_id s.db.workers ≡ some row
    → (row' : Worker) × (lookup worker_id (disconnect_worker delivers worker_id s).1.db.workers
        ≡ some row')
unfolding disconnect_worker db_set_worker_offline
disconnect-row delivers worker_id s row found =
    elim (Option-cases (lookup worker_id s.workers_ws)) [
      | inl e ↦ (row, rw (e, disconnect_worker) found)
      | inr (entry, e) ↦ elim (Bool-cases (validate_uuid worker_id)) [
        | inr invalid ↦ (row, rw (e, disconnect_worker) (rw invalid found))
        | inl valid ↦ (
          record row { status = offline },
          rw (e, disconnect_worker)
              (rw valid
                (rw (lookup-modify worker_id worker_id) (rw (text_eq_refl worker_id) (rw found)))),
        )
      ]
    ]

disconnect-gone :
    (delivers : ℕ → Bool) (worker_id : Text) (s : State)
    → lookup worker_id (disconnect_worker delivers worker_id s).1.workers_ws ≡ none
unfolding disconnect_worker unregister_worker_ws
disconnect-gone delivers worker_id s = elim (Option-cases (lookup worker_id s.workers_ws)) [
  | inl e ↦ rw (e, disconnect_worker) e
  | inr (entry, e) ↦
      rw (e, disconnect_worker)
        (rw (lookup-erase worker_id worker_id) (rw (text_eq_refl worker_id)))
]

restrict-cases :
    (delivers : ℕ → Bool) (now : ℕ) (worker_id : Text) (r : Restriction) (s : State)
    → (restrict_worker delivers now r worker_id s).0 ≡ answer worker_id
    → (validate_uuid worker_id ≡ true)
      × ((ensure_worker_exists_for_restriction now worker_id s).0 ≡ true)
      × ((restrict_worker delivers now r worker_id s).1
          ≡ restricted worker_id
              (some r)
              (disconnect_worker delivers worker_id
                (ensure_worker_exists_for_restriction now worker_id s).1).1)
unfolding restrict_worker
restrict-cases delivers now worker_id r s answered = elim (Bool-cases (validate_uuid worker_id)) [
  | inr invalid ↦
      let bad : http_error bad_request ≡ answer worker_id = rw invalid at answered in absurd (cc)
  | inl valid ↦ elim (Bool-cases (ensure_worker_exists_for_restriction now worker_id s).0) [
    | inr missing ↦
        let bad : http_error not_found ≡ answer worker_id = rw missing at (rw valid at answered) in
        absurd (cc)
    | inl exists ↦ (valid, exists, rw valid (rw exists refl))
  ]
]

restrict-facts :
    (delivers : ℕ → Bool) (now : ℕ) (worker_id : Text) (r : Restriction) (s : State)
    → (restrict_worker delivers now r worker_id s).0 ≡ answer worker_id
    → (let s' : State = (restrict_worker delivers now r worker_id s).1 in
        (lookup worker_id s'.workers_ws ≡ none)
        × (restriction_of (db_get_worker worker_id s'.db) ≡ some r))
restrict-facts delivers now worker_id r s answered =
    let (valid, exists, same) = restrict-cases delivers now worker_id r s answered in
    let checked = (ensure_worker_exists_for_restriction now worker_id s).1 in
    let (row, found) = ensure_worker-row now worker_id s valid exists in
    let (row', found') = disconnect-row delivers worker_id checked row found in
    rw same
      (disconnect-gone delivers worker_id checked, restriction-set worker_id r _ row' valid found')

-- Once an administrator's request to ban or suspend a worker is answered, the worker is no longer
-- connected, and a hello that is taken for this worker's is turned away with the reason.
pub hello-restrict_worker :
    (delivers delivers' : ℕ → Bool) (now later ws : ℕ) (peer_ip worker_id : Text) (r : Restriction)
    → (g : Greeting) (current : Option Text) (s : State)
    → (restrict_worker delivers now r worker_id s).0 ≡ answer worker_id
    → authenticate g (restrict_worker delivers now r worker_id s).1.db ≡ some worker_id
    → (let s' : State = (restrict_worker delivers now r worker_id s).1 in
        (lookup worker_id s'.workers_ws ≡ none)
        × (handle_hello delivers' later ws peer_ip g current s'
            ≡ (closed, some worker_id, reject delivers' later ws peer_ip (reason_of r) s')))
hello-restrict_worker delivers delivers' now later ws peer_ip worker_id r g current s answered
      known =
    let (gone, barred) = restrict-facts delivers now worker_id r s answered in
    (gone, hello_restricted delivers' later ws peer_ip worker_id g current _ r known barred)
