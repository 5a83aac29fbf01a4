-- ===== src/Worker/Process/Persisted.antt =====
-- worker/main.py: the identity of a worker across its starts.
use the_grid_x.Base.{
  ℕ, ◌≡◌, refl, true, Option, none, some, Text, text_eq_refl, text_eq_iff, ap, Bool-cases, sym,
  ◌++◌, text, inl, inr,
}
use the_grid_x.Worker.Process.Identity.{
  StoredIdentity, ConfigFile, no_file, unreadable, holds, WorkerIdentity, new_identity,
  hash_credentials, create_identity, use_stored, is_user, load_or_create_identity,
}

-- The file names the user, and the id that the worker has.
abbrev Names : WorkerIdentity → ConfigFile → Type 0
Names w (holds stored) =
    (id : Text) × (stored.worker_id ≡ some id)
    × (stored.user_id ≡ some w.user_id)
    × (w.worker_id ≡ some id)
Names w _ = ⊥

is_user-eq : (o : Option Text) (user_id : Text) → is_user o user_id ≡ true → o ≡ some user_id
is_user-eq none user_id h = absurd (cc)
is_user-eq (some s) user_id h = ap some ((text_eq_iff s user_id).0 h)

module _ (sha256 : Text → Text) (now : ℕ) (fresh : Text) (w : WorkerIdentity) where
  use_stored-Names :
      (worker_id : Option Text) (stored : StoredIdentity)
      → stored.worker_id ≡ worker_id
      → is_user stored.user_id w.user_id ≡ true
      → Names
          (use_stored sha256 now fresh worker_id stored w).0
          (use_stored sha256 now fresh worker_id stored w).1
  unfolding create_identity
  use_stored-Names none stored e u = (fresh, refl, refl, refl)
  use_stored-Names (some id) stored e u = (id, e, is_user-eq stored.user_id w.user_id u, refl)

  load-Names :
      (file : ConfigFile)
      → Names
          (load_or_create_identity sha256 now fresh file w).0
          (load_or_create_identity sha256 now fresh file w).1
  unfolding load_or_create_identity create_identity
  load-Names no_file = (fresh, refl, refl, refl)
  load-Names unreadable = (fresh, refl, refl, refl)
  load-Names (holds stored) = elim (Bool-cases (is_user stored.user_id w.user_id)) [
    | inl user ↦ rw user (use_stored-Names stored.worker_id stored refl user)
    | inr other ↦ rw other (fresh, refl, refl, refl)
  ]

module _ (sha256 : Text → Text) (now : ℕ) (fresh : Text) where
  -- A file that names the user gives the id back.
  Names-load :
      (v w : WorkerIdentity) (file : ConfigFile)
      → v.user_id ≡ w.user_id
      → Names v file
      → (load_or_create_identity sha256 now fresh file w).0.worker_id ≡ v.worker_id
  unfolding load_or_create_identity
  Names-load v w no_file e n = absurd n
  Names-load v w unreadable e n = absurd n
  Names-load v w (holds stored) e (id, stored_id, user, own) =
      rw (user, e, text_eq_refl w.user_id, stored_id) (sym own)

module _ (sha256 : Text → Text) (now : ℕ) (fresh : Text) (w : WorkerIdentity) where
  -- The user, and the token of the password.
  abbrev Signed : WorkerIdentity × ConfigFile → Type 0
  Signed r =
      (r.0.user_id ≡ w.user_id)
      × (r.0.auth_token ≡ some (sha256 (w.user_id ++ (text ":" ++ w.password))))

  use_stored-Signed :
      (worker_id : Option Text) (stored : StoredIdentity)
      → Signed (use_stored sha256 now fresh worker_id stored w)
  unfolding create_identity hash_credentials
  use_stored-Signed none stored = (refl, refl)
  use_stored-Signed (some id) stored = (refl, refl)

  load-Signed : (file : ConfigFile) → Signed (load_or_create_identity sha256 now fresh file w)
  unfolding load_or_create_identity create_identity hash_credentials
  load-Signed no_file = (refl, refl)
  load-Signed unreadable = (refl, refl)
  load-Signed (holds stored) = elim (Bool-cases (is_user stored.user_id w.user_id)) [
    | inl user ↦ rw user (use_stored-Signed stored.worker_id stored)
    | inr other ↦ rw other (refl, refl)
  ]

-- A worker keeps its id from one start to the next, whatever the file held at first, and whether or
-- not the password has changed; its token is each time that of the password that it is started with.
pub load_or_create_identity-same :
    (sha256 : Text → Text) (now later : ℕ) (fresh fresh_later : Text) (file : ConfigFile)
    (user_id password new_password : Text)
    → let first = load_or_create_identity sha256 now fresh file (new_identity user_id password) in
      let second =
        load_or_create_identity sha256 later fresh_later first.1
          (new_identity user_id new_password) in
      (second.0.worker_id ≡ first.0.worker_id)
      × (first.0.auth_token ≡ some (sha256 (user_id ++ (text ":" ++ password))))
      × (second.0.auth_token ≡ some (sha256 (user_id ++ (text ":" ++ new_password))))
load_or_create_identity-same sha256 now later fresh fresh_later file user_id password new_password =
    let first = new_identity user_id password in
    let second = new_identity user_id new_password in
    let loaded = load_or_create_identity sha256 now fresh file first in
    (
      Names-load sha256 later fresh_later loaded.0 second loaded.1
          (load-Signed sha256 now fresh first file).0 (load-Names sha256 now fresh first file),
      (load-Signed sha256 now fresh first file).1,
      (load-Signed sha256 later fresh_later second loaded.1).1,
    )
