-- ===== src/WorkerApp/History.antt =====
-- worker_app/job_history.py. The file of a user is a state, each write of it succeeds, and the records
-- in it are dicts, whose ids and codes are texts where they are there.
use the_grid_x.Base.{
  ℕ, ℤ, pos, ltb_ℤ, ◌==◌, Bool, true, false, not, ◌||◌, ◌*ℤ◌, Option, none, some, List, [], ◌∷◌,
  take, keep, Text, text, text_eq, is_empty, Dict, lookup, insert, order_by, or_else, if◌then◌else◌,
}
use the_grid_x.Schemas.{Json, null, boolean, int, real, str, or_json, get_or}

abbrev pub JobRecord : Type 0
JobRecord = Dict Json

pub data HistoryFile : Type 0 where
  absent unreadable no_list : HistoryFile
  jobs_in : List JobRecord → HistoryFile

-- `c in "._-"`
abbrev pub is_punctuation : ℕ → Bool
is_punctuation c = c == b'.' || c == b'_' || c == b'-'

-- `c.isalnum()` is a parameter.
unfoldable pub safe_user : (is_alnum : ℕ → Bool) → Text → Text
safe_user is_alnum user_id =
    let kept : Text = keep (λ c. is_alnum c || is_punctuation c) user_id in
    let cut : Text = take 64 kept in if is_empty cut then text "default" else cut

unfoldable pub load_job_history : HistoryFile → List JobRecord
load_job_history (jobs_in jobs) = jobs
load_job_history _ = []

unfoldable pub save_job_history : List JobRecord → HistoryFile
save_job_history jobs = jobs_in (take 100 jobs)

-- `j.get(key) == job_id`
abbrev pub is_text : Text → Json → Bool
is_text job_id (str s) = text_eq s job_id
is_text job_id _ = false

unfoldable pub has_id : Text → JobRecord → Bool
has_id job_id j =
    is_text job_id (get_or (text "job_id") null j) || is_text job_id (get_or (text "id") null j)

-- `created_at` is the time.
unfoldable pub new_record : (created_at : ℤ) (job_id language code_preview : Text) → JobRecord
new_record created_at job_id language code_preview =
    (text "job_id", str job_id)
    ∷ (text "id", str job_id)
    ∷ (text "status", str (text "queued"))
    ∷ (text "language", str language)
    ∷ (text "code_preview", str (take 80 code_preview))
    ∷ (text "created_at", real created_at)
    ∷ (text "stdout", str [])
    ∷ (text "stderr", str [])
    ∷ []

unfoldable pub add_job_to_history :
    (now : ℤ) (job_id language code_preview : Text) → HistoryFile → HistoryFile
add_job_to_history now job_id language code_preview file = save_job_history (
    new_record now job_id language code_preview
    ∷ keep (λ j. not (has_id job_id j)) (load_job_history file))

-- `{**a, **b}`
unfoldable pub merge : JobRecord → JobRecord → JobRecord
merge a [] = a
merge a ((k, v) ∷ b) = merge (insert k v a) b

abbrev pub with_ids : Text → JobRecord → JobRecord
with_ids job_id j = insert (text "id") (str job_id) (insert (text "job_id") (str job_id) j)

-- A text that is not empty.
abbrev pub id_text : Json → Option Text
id_text (str s) = if is_empty s then none else some s
id_text _ = none

-- `(code or "")[:80]`
abbrev pub preview : Json → Json
preview (str s) = str (take 80 s)
preview _ = str []

unfoldable pub fetched_record : (now : ℤ) (job_id : Text) → JobRecord → JobRecord
fetched_record now job_id found =
    (text "job_id", str job_id)
    ∷ (text "id", str job_id)
    ∷ (text "status", get_or (text "status") (str (text "unknown")) found)
    ∷ (text "language", get_or (text "language") (str (text "python")) found)
    ∷ (text "code_preview", preview (get_or (text "code") (str []) found))
    ∷ (text "created_at", get_or (text "created_at") (real now) found)
    ∷ (text "stdout", get_or (text "stdout") (str []) found)
    ∷ (text "stderr", get_or (text "stderr") (str []) found)
    ∷ (text "exit_code", get_or (text "exit_code") null found)
    ∷ []

-- The first record of the job is merged with what was fetched; none where there is no such record.
unfoldable pub update_first : Text → JobRecord → List JobRecord → Option (List JobRecord)
update_first job_id found [] = none
update_first job_id found (j ∷ jobs) =
    let later : Option (List JobRecord) = elim (update_first job_id found jobs) [
      | none ↦ none
      | some rest ↦ some (j ∷ rest)
    ] in
    if has_id job_id j then some (with_ids job_id (merge j found) ∷ jobs) else later

unfoldable pub update_job_in_history : (now : ℤ) → JobRecord → HistoryFile → HistoryFile
update_job_in_history now found file =
    elim (id_text (or_json (get_or (text "id") null found) (get_or (text "job_id") null found))) [
      | none ↦ file
      | some job_id ↦ save_job_history (
          or_else (update_first job_id found (load_job_history file))
            (fetched_record now job_id found ∷ load_job_history file))
    ]

-- The records by their ids: the local ones, then the coordinator's over them.
unfoldable pub by_local : List JobRecord → Dict JobRecord → Dict JobRecord
by_local [] by_id = by_id
by_local (j ∷ jobs) by_id =
    elim (id_text (or_json (get_or (text "job_id") null j) (get_or (text "id") null j))) [
      | none ↦ by_local jobs by_id
      | some id ↦ by_local jobs (insert id j by_id)
    ]

unfoldable pub by_coordinator : List JobRecord → Dict JobRecord → Dict JobRecord
by_coordinator [] by_id = by_id
by_coordinator (j ∷ jobs) by_id =
    elim (id_text (or_json (get_or (text "id") null j) (get_or (text "job_id") null j))) [
      | none ↦ by_coordinator jobs by_id
      | some id ↦
          by_coordinator jobs
            (insert id (with_ids id (merge (or_else (lookup id by_id) []) j)) by_id)
    ]

abbrev pub values_of : Dict JobRecord → List JobRecord
values_of [] = []
values_of ((_, j) ∷ d) = j ∷ values_of d

-- A number in ten-thousandths; 0 for what is falsy.
abbrev pub number : Json → ℤ
number (int z) = z *ℤ pos 10000
number (real z) = z
number (boolean true) = pos 10000
number _ = pos 0

-- `x.get("created_at") or 0`
unfoldable pub creation_time : JobRecord → ℤ
creation_time j = number (get_or (text "created_at") null j)

-- Newest first, and those of the same time in their order.
abbrev pub newer : JobRecord → JobRecord → Bool
newer a b = ltb_ℤ (creation_time b) (creation_time a)

unfoldable pub get_merged_job_history :
    HistoryFile → (coordinator_jobs : List JobRecord) → List JobRecord
get_merged_job_history file coordinator_jobs = take 100 (
    order_by newer
      (values_of (by_coordinator coordinator_jobs (by_local (load_job_history file) []))))
