-- ===== src/Database/Auth.antt =====
-- coordinator/database.py: credentials, `db_get_worker_by_auth`, `db_verify_worker_auth`,
-- `db_register_user_auth` and `db_verify_user_auth`.
use the_grid_x.Base.{
  ℕ, Bool, true, false, Option, none, some, [], ◌∷◌, Text, text_eq, Dict, lookup, insert, modify,
  if◌then◌else◌, is_some, is_empty, not, ◌&&◌, ◌||◌,
}
use the_grid_x.Utils.{validate_uuid}
use the_grid_x.Database.Schema.{Worker, Db}

-- `column = ?`, which NULL never meets.
abbrev pub is_text : Option Text → Text → Bool
is_text none b = false
is_text (some a) b = text_eq a b

-- `SELECT * FROM workers WHERE owner_id=? AND auth_token=?`, the first row
unfoldable pub find_by_auth : Text → Text → Dict Worker → Option (Text × Worker)
find_by_auth owner_id auth_token [] = none
find_by_auth owner_id auth_token ((id, w) ∷ rows) =
    if text_eq w.owner_id owner_id && is_text w.auth_token auth_token
    then some (id, w)
    else find_by_auth owner_id auth_token rows

unfoldable pub db_get_worker_by_auth : (owner_id auth_token : Text) → Db → Option (Text × Worker)
db_get_worker_by_auth owner_id auth_token db =
    if is_empty owner_id then none else find_by_auth owner_id auth_token db.workers

unfoldable pub db_verify_worker_auth : (worker_id auth_token : Text) → Db → Bool
db_verify_worker_auth worker_id auth_token db =
    validate_uuid worker_id && elim (lookup worker_id db.workers) [
      | none ↦ false
      | some w ↦ is_text w.auth_token auth_token
    ]

-- Insert, or on a known user replace the token alone.
unfoldable pub db_register_user_auth : (now : ℕ) (user_id auth_token : Text) → Db → Db × Bool
db_register_user_auth now user_id auth_token db =
    let rows =
      if is_some (lookup user_id db.user_auth)
      then modify user_id (λ a. record a { auth_token = auth_token }) db.user_auth
      else insert user_id (record { auth_token = auth_token; created_at = now }) db.user_auth in
    if is_empty user_id || is_empty auth_token
    then (db, false)
    else (record db { user_auth = rows }, true)

unfoldable pub db_verify_user_auth : (user_id auth_token : Text) → Db → Bool
db_verify_user_auth user_id auth_token db =
    not (is_empty user_id) && elim (lookup user_id db.user_auth) [
      | none ↦ false
      | some a ↦ text_eq a.auth_token auth_token
    ]
