-- ===== src/Tests/Tables.antt =====
-- coordinator/database.py and coordinator/workers.py
use the_grid_x.Base.{
  ◌≡◌, ◌↔◌, ◌⊎◌, refl, Bool, true, false, some, [], ◌∷◌, text, lookup, text_eq, inl,
}
use the_grid_x.Utils.{validate_uuid, match_classes, uuid_pattern, is_hex, is_variant}
use the_grid_x.Database.{
  Db, Exception, raise, other_value, db_get_job, db_set_job_assigned, db_assign_job_to_worker, Job,
  running,
}
use the_grid_x.Database.Laws.{IsAssignable, db_set_job_assigned_iff, db_get_job-db_set_job_assigned}
use the_grid_x.Database.{db_list_recent_jobs}
use the_grid_x.Base.{IsDescending}
use the_grid_x.Database.Listed.{created_at, db_list_recent_jobs-IsDescending}
use mathlib.Core.List.{Permᴰ}
use the_grid_x.Base.{pos, length, List, Text, ◌++◌, min_ℤ, max_ℤ}
use the_grid_x.State.{Entry}
use the_grid_x.Registry.{get_idle_worker_id}
use the_grid_x.Registry.Choice.{Answers, get_idle_worker_id-Answers}
use the_grid_x.Registry.Malformed.{get_idle_worker_id_malformed}
use the_grid_x.Tests.Fixtures.{job_a, worker_b, one_job, waiting, entry}

db_set_job_assigned_iff_example :
    ((db_set_job_assigned 7 job_a worker_b one_job).0 ≡ true)
    ↔ IsAssignable 7 job_a worker_b one_job
db_set_job_assigned_iff_example = db_set_job_assigned_iff 7 job_a worker_b one_job

there : db_get_job job_a one_job ≡ some waiting
unfolding db_get_job validate_uuid lookup match_classes uuid_pattern is_hex is_variant text_eq
there = refl

succeeds : (db_set_job_assigned 7 job_a worker_b one_job).0 ≡ true
unfolding db_set_job_assigned db_assign_job_to_worker validate_uuid lookup match_classes
    uuid_pattern is_hex is_variant text_eq
succeeds = refl

db_get_job-db_set_job_assigned_example :
    let r : Bool × Db = db_set_job_assigned 7 job_a worker_b one_job in
    ((r.0 ≡ true)
      × (db_get_job job_a r.1
          ≡ some (record waiting {
            worker_id = some worker_b;
            status = running;
            started_at = some 7;
          })))
    ⊎ ((r.0 ≡ false) × (r.1 ≡ one_job))
db_get_job-db_set_job_assigned_example =
    db_get_job-db_set_job_assigned 7 job_a worker_b one_job waiting there

get_idle_worker_id-Answers_example :
    Answers
      (text "ops")
      (text "alice")
      ((worker_b, entry) ∷ [])
      (get_idle_worker_id (text "ops") (text "alice") ((worker_b, entry) ∷ []))
get_idle_worker_id-Answers_example =
    get_idle_worker_id-Answers (text "ops") (text "alice") ((worker_b, entry) ∷ [])

abbrev malformed : Entry
malformed = record entry { caps = other_value }

get_idle_worker_id_malformed_example :
    (e : Exception) × (get_idle_worker_id (text "ops") (text "alice") ((worker_b, malformed) ∷ [])
      ≡ raise e)
get_idle_worker_id_malformed_example =
    get_idle_worker_id_malformed (text "ops") (text "alice") ((worker_b, malformed) ∷ []) worker_b
      malformed (inl refl) (inl refl)

db_list_recent_jobs-IsDescending_example :
    (left_out : List (Text × Job)) × Permᴰ
      (db_list_recent_jobs (pos 5) one_job ++ left_out)
      one_job.jobs
    × IsDescending created_at (db_list_recent_jobs (pos 5) one_job ++ left_out)
    × (pos (length (db_list_recent_jobs (pos 5) one_job))
        ≡ min_ℤ (pos (length one_job.jobs)) (max_ℤ (pos 1) (min_ℤ (pos 5) (pos 500))))
db_list_recent_jobs-IsDescending_example = db_list_recent_jobs-IsDescending (pos 5) one_job
