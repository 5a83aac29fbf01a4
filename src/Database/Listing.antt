-- ===== src/Database/Listing.antt =====
-- coordinator/database.py: the listings. `ORDER BY … DESC` is a sort that keeps the order of
-- equal rows, and `LIMIT` is `take`; in SQLite a negative limit is none.
use the_grid_x.Base.{
  order_by, ℕ, ℤ, pos, negsuc, max_ℤ, min_ℤ, ltb_ℤ, ltb, Bool, true, false, ◌||◌, Option, none,
  some, List, [], ◌∷◌, Text, text_eq, lookup, if◌then◌else◌, or_else, take, keep, map, is_empty,
}
use the_grid_x.Utils.{sanitize_text}
use the_grid_x.Database.Schema.{Job, JobStatus, queued, running, completed, failed, UserCredits, Db}

unfoldable pub limit_rows {ℓ} : {A : Type ℓ} → ℤ → List A → List A
limit_rows (pos n) rows = take n rows
limit_rows (negsuc n) rows = rows

-- `max(1, min(limit, 500))`
unfoldable pub clamp_limit : ℤ → ℤ
clamp_limit limit = max_ℤ (pos 1) (min_ℤ limit (pos 500))

abbrev pub created_later : Text × Job → Text × Job → Bool
created_later a b = ltb b.1.created_at a.1.created_at

module _ (is_printable : ℕ → Bool) where
  unfoldable pub db_list_jobs_by_user : Text → ℤ → Db → List (Text × Job)
  db_list_jobs_by_user user_id limit db =
      let clean = sanitize_text is_printable user_id 64 in
      if is_empty user_id
      then []
      else limit_rows limit (order_by created_later (keep (λ r. text_eq r.1.user_id clean) db.jobs))

unfoldable pub db_list_recent_jobs : ℤ → Db → List (Text × Job)
db_list_recent_jobs limit db = limit_rows (clamp_limit limit) (order_by created_later db.jobs)

-- `LEFT JOIN workers w ON j.worker_id = w.id`, for the column `w.owner_id`
abbrev pub worker_owner : Db → Text × Job → Option Text
worker_owner db row = elim row.1.worker_id [
  | none ↦ none
  | some id ↦ elim (lookup id db.workers) [ none ↦ none | some w ↦ some w.owner_id ]
]

abbrev pub same_status : JobStatus → JobStatus → Bool
same_status queued queued = true
same_status running running = true
same_status completed completed = true
same_status failed failed = true
same_status _ _ = false

-- `j.status IN (…)`
abbrev pub has_status : List JobStatus → JobStatus → Bool
has_status [] s = false
has_status (x ∷ xs) s = same_status x s || has_status xs s

-- `COALESCE(j.completed_at, j.created_at)`
abbrev pub finished_at : Text × Job → ℕ
finished_at row = or_else row.1.completed_at row.1.created_at

unfoldable pub db_list_recently_completed_jobs : ℤ → Db → List ((Text × Job) × Option Text)
db_list_recently_completed_jobs limit db =
    map (λ r. (r, worker_owner db r))
      (limit_rows (clamp_limit limit) (
        order_by (λ a b. ltb (finished_at b) (finished_at a))
          (keep (λ r. has_status (completed ∷ []) r.1.status) db.jobs)))

-- An empty list of statuses is no filter.
unfoldable pub db_list_jobs_with_workers :
    List JobStatus → ℤ → Db → List ((Text × Job) × Option Text)
db_list_jobs_with_workers statuses limit db =
    let chosen : List (Text × Job) = elim statuses [
      | [] ↦ db.jobs
      | s ∷ more ↦ keep (λ r. has_status (s ∷ more) r.1.status) db.jobs
    ] in
    map (λ r. (r, worker_owner db r))
      (limit_rows (clamp_limit limit) (order_by created_later chosen))

unfoldable pub db_list_users : ℤ → Db → List (Text × UserCredits)
db_list_users limit db =
    limit_rows (clamp_limit limit) (order_by (λ a b. ltb_ℤ b.1.balance a.1.balance) db.user_credits)
