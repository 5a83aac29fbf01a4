-- ===== src/Websocket/Hello.antt =====
-- coordinator/websocket.py: the branch for "hello" in `handle_worker`, up to its acknowledgement.
use the_grid_x.Base.{
  ℕ, Bool, not, ◌&&◌, Option, none, some, [], ◌∷◌, ◌++◌, Text, text, is_empty, lookup,
  if◌then◌else◌, is_some,
}
use the_grid_x.Database.{
  Db, Worker, Caps, Restriction, banned, suspended, idle, ok, raise, db_verify_user_auth,
  db_get_worker_by_auth, db_get_worker, db_upsert_worker,
}
use the_grid_x.State.{State, hello_ack, auth_error}
use the_grid_x.Registry.{register_worker_ws, post}

-- A "hello" message. `worker_id` is the id that it names, or a fresh one where it names none.
pub record Greeting : Type 0 where
  pub worker_id : Text
  pub caps : Caps
  pub owner_id : Text
  pub auth_token : Text

-- How the handling of a message ends. `closed` returns from the handler, and so skips what it
-- does on a disconnect; `failed` raises, and so does not.
pub data Outcome : Type 0 where
  continues closed failed : Outcome

-- "FIXED AUTHENTICATION LOGIC": the worker's id, or none where the password is wrong.
unfoldable pub authenticate : Greeting → Db → Option Text
authenticate g db =
    let known : Option Text = elim (db_get_worker_by_auth g.owner_id g.auth_token db) [
      | none ↦ some g.worker_id
      | some row ↦ some row.0
    ] in
    if not (is_empty g.auth_token) && not (is_empty g.owner_id)
    then (if db_verify_user_auth g.owner_id g.auth_token db
        then known
        else if is_some (lookup g.owner_id db.user_auth)
        then none
        else some g.worker_id)
    else some g.worker_id

-- `(existing or {}).get("restriction")`
abbrev pub restriction_of : Option Worker → Option Restriction
restriction_of none = none
restriction_of (some row) = row.restriction

abbrev pub reason_of : Restriction → Text
reason_of banned = text "Worker is banned"
reason_of suspended = text "Worker is suspended"

abbrev pub wrong_password : Text
wrong_password = text "Authentication failed: Invalid password for this username"

module _ (delivers : ℕ → Bool) (now : ℕ) (ws : ℕ) (peer_ip : Text) where
  unfoldable pub reject : Text → State → State
  reject error s = record s { outbox = post delivers ws (auth_error error) s.outbox }

  -- Registered in memory, then in the database, then acknowledged. A send that fails because the
  -- worker has closed the connection leaves the handler at once.
  unfoldable pub admit : Text → Greeting → State → Outcome × State
  admit worker_id g s =
      let joined : State = record s {
        workers_ws = register_worker_ws now worker_id ws g.caps g.owner_id s.workers_ws;
      } in
      elim (db_upsert_worker now worker_id peer_ip g.caps idle g.owner_id g.auth_token s.db) [
        | raise _ ↦ (failed, joined)
        | ok db' ↦
            if delivers ws
            then (
              continues,
              record joined { db = db'; outbox = s.outbox ++ (ws, hello_ack worker_id) ∷ [] },
            )
            else (closed, record joined { db = db' })
      ]

  -- The outcome, the connection's `worker_id` after it, and the state. On `continues` the caller
  -- dispatches.
  unfoldable pub handle_hello :
      Greeting → (current : Option Text) → State → Outcome × Option Text × State
  handle_hello g current s = elim (authenticate g s.db) [
    | none ↦ (closed, current, reject wrong_password s)
    | some worker_id ↦ elim (restriction_of (db_get_worker worker_id s.db)) [
      | some r ↦ (closed, some worker_id, reject (reason_of r) s)
      | none ↦ let (outcome, s') = admit worker_id g s in (outcome, some worker_id, s')
    ]
  ]
