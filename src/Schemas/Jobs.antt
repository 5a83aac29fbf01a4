-- ===== src/Schemas/Jobs.antt =====
-- common/schemas.py: the records of jobs.
use the_grid_x.Base.{pos, [], ◌∷◌, text, Dict}
use the_grid_x.Schemas.Values.{Json, null, int, real, str, get_or, or_json}

pub record JobLimits : Type 0 where
  pub cpu_cores : Json
  pub memory_mb : Json
  pub timeout_seconds : Json
  pub max_output_bytes : Json

-- The defaults of the dataclass.
abbrev pub job_limits : JobLimits
job_limits = record {
  cpu_cores = int (pos 1);
  memory_mb = int (pos 512);
  timeout_seconds = int (pos 300);
  max_output_bytes = int (pos 10_000_000);
}

unfoldable pub job_limits_to_dict : JobLimits → Dict Json
job_limits_to_dict x =
    (text "cpu_cores", x.cpu_cores)
    ∷ (text "memory_mb", x.memory_mb)
    ∷ (text "timeout_seconds", x.timeout_seconds)
    ∷ (text "max_output_bytes", x.max_output_bytes)
    ∷ []

unfoldable pub job_limits_from_dict : Dict Json → JobLimits
job_limits_from_dict d = record {
  cpu_cores = get_or (text "cpu_cores") (int (pos 1)) d;
  memory_mb = get_or (text "memory_mb") (int (pos 512)) d;
  timeout_seconds = get_or (text "timeout_seconds") (int (pos 300)) d;
  max_output_bytes = get_or (text "max_output_bytes") (int (pos 10_000_000)) d;
}

pub record JobSchema : Type 0 where
  pub job_id : Json
  pub user_id : Json
  pub code : Json
  pub language : Json
  pub status : Json
  pub worker_id : Json
  pub created_at : Json
  pub started_at : Json
  pub completed_at : Json
  pub stdout : Json
  pub stderr : Json
  pub exit_code : Json
  pub error_message : Json
  pub limits : Json
  pub cost : Json

-- The defaults of the dataclass.
abbrev pub job_schema : Json → Json → Json → JobSchema
job_schema job_id user_id code = record {
  job_id = job_id;
  user_id = user_id;
  code = code;
  language = str (text "python");
  status = str (text "queued");
  worker_id = null;
  created_at = null;
  started_at = null;
  completed_at = null;
  stdout = str (text "");
  stderr = str (text "");
  exit_code = null;
  error_message = null;
  limits = null;
  cost = real (pos 10_000);
}

unfoldable pub job_schema_to_dict : JobSchema → Dict Json
job_schema_to_dict x =
    (text "id", x.job_id)
    ∷ (text "user_id", x.user_id)
    ∷ (text "code", x.code)
    ∷ (text "language", x.language)
    ∷ (text "status", x.status)
    ∷ (text "worker_id", x.worker_id)
    ∷ (text "created_at", x.created_at)
    ∷ (text "started_at", x.started_at)
    ∷ (text "completed_at", x.completed_at)
    ∷ (text "stdout", x.stdout)
    ∷ (text "stderr", x.stderr)
    ∷ (text "exit_code", x.exit_code)
    ∷ (text "error_message", x.error_message)
    ∷ (text "limits", x.limits)
    ∷ (text "cost", x.cost)
    ∷ []

unfoldable pub job_schema_from_dict : Dict Json → JobSchema
job_schema_from_dict d = record {
  job_id = or_json (get_or (text "id") null d) (get_or (text "job_id") (str (text "")) d);
  user_id = get_or (text "user_id") (str (text "")) d;
  code = get_or (text "code") (str (text "")) d;
  language = get_or (text "language") (str (text "python")) d;
  status = get_or (text "status") (str (text "queued")) d;
  worker_id = get_or (text "worker_id") null d;
  created_at = get_or (text "created_at") null d;
  started_at = get_or (text "started_at") null d;
  completed_at = get_or (text "completed_at") null d;
  stdout = get_or (text "stdout") (str (text "")) d;
  stderr = get_or (text "stderr") (str (text "")) d;
  exit_code = get_or (text "exit_code") null d;
  error_message = get_or (text "error_message") null d;
  limits = get_or (text "limits") null d;
  cost = get_or (text "cost") (real (pos 10_000)) d;
}
