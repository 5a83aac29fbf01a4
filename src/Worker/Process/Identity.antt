-- ===== src/Worker/Process/Identity.antt =====
-- worker/main.py: `WorkerIdentity`. The file of a user is a state; each write of it succeeds.
use the_grid_x.Base.{
  ℕ, Option, none, some, ◌++◌, Text, text, text_eq, Bool, false, not, is_empty, if◌then◌else◌,
}

-- The dict in the file; none where a key is missing.
pub record StoredIdentity : Type 0 where
  pub worker_id : Option Text
  pub user_id : Option Text
  pub auth_token : Option Text
  pub created_at : Option ℕ
  pub last_used : Option ℕ

pub data ConfigFile : Type 0 where
  no_file unreadable : ConfigFile
  holds : StoredIdentity → ConfigFile

pub record WorkerIdentity : Type 0 where
  pub user_id : Text
  pub password : Text
  pub worker_id : Option Text
  pub auth_token : Option Text

abbrev pub new_identity : (user_id password : Text) → WorkerIdentity
new_identity user_id password = record {
  user_id = user_id;
  password = password;
  worker_id = none;
  auth_token = none;
}

-- The truth value of a text that may be missing.
abbrev pub is_set : Option Text → Bool
is_set none = false
is_set (some s) = not (is_empty s)

-- `stored_user_id == self.user_id`
abbrev pub is_user : Option Text → Text → Bool
is_user none user_id = false
is_user (some stored) user_id = text_eq stored user_id

-- `hashlib.sha256(…).hexdigest()` of the encoded text is a parameter; so are the clock and the id
-- that `uuid4` would give.
module _ (sha256 : Text → Text) (now : ℕ) (fresh : Text) where
  unfoldable pub hash_credentials : WorkerIdentity → Text
  hash_credentials w = sha256 (w.user_id ++ (text ":" ++ w.password))

  -- "Create new identity"
  unfoldable pub create_identity : WorkerIdentity → WorkerIdentity × ConfigFile
  create_identity w = (
    record w { worker_id = some fresh; auth_token = some (hash_credentials w) },
    holds (record {
      worker_id = some fresh;
      user_id = some w.user_id;
      auth_token = some (hash_credentials w);
      created_at = some now;
      last_used = some now;
    }),
  )

  -- A file without a "worker_id" raises where the id is printed, after the file is written.
  abbrev pub use_stored :
      (worker_id : Option Text) → StoredIdentity → WorkerIdentity → WorkerIdentity × ConfigFile
  use_stored none found w = create_identity w
  use_stored (some worker_id) found w = (
    record w { worker_id = some worker_id; auth_token = some (hash_credentials w) },
    holds (record found { auth_token = some (hash_credentials w); last_used = some now }),
  )

  unfoldable pub load_or_create_identity : ConfigFile → WorkerIdentity → WorkerIdentity × ConfigFile
  load_or_create_identity no_file w = create_identity w
  load_or_create_identity unreadable w = create_identity w
  load_or_create_identity (holds stored) w =
      if is_user stored.user_id w.user_id
      then use_stored stored.worker_id stored w
      else create_identity w

  -- The worker has an id afterwards, and the file is what it then is.
  unfoldable pub get_worker_id : ConfigFile → WorkerIdentity → WorkerIdentity × ConfigFile
  get_worker_id file w = if is_set w.worker_id then (w, file) else load_or_create_identity file w

  unfoldable pub get_auth_token : WorkerIdentity → WorkerIdentity
  get_auth_token w =
      if is_set w.auth_token then w else record w { auth_token = some (hash_credentials w) }
