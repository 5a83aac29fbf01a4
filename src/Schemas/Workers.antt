-- ===== src/Schemas/Workers.antt =====
-- common/schemas.py: the records of workers.
use the_grid_x.Base.{pos, [], ◌∷◌, text, Dict}
use the_grid_x.Schemas.Values.{Json, null, int, real, str, get_or}

pub record WorkerCapabilities : Type 0 where
  pub cpu_cores : Json
  pub memory_mb : Json
  pub gpu_count : Json
  pub gpu_memory_mb : Json
  pub disk_gb : Json

-- The defaults of the dataclass.
abbrev pub worker_capabilities : WorkerCapabilities
worker_capabilities = record {
  cpu_cores = int (pos 1);
  memory_mb = int (pos 512);
  gpu_count = int (pos 0);
  gpu_memory_mb = int (pos 0);
  disk_gb = int (pos 10);
}

unfoldable pub worker_capabilities_to_dict : WorkerCapabilities → Dict Json
worker_capabilities_to_dict x =
    (text "cpu_cores", x.cpu_cores)
    ∷ (text "memory_mb", x.memory_mb)
    ∷ (text "gpu_count", x.gpu_count)
    ∷ (text "gpu_memory_mb", x.gpu_memory_mb)
    ∷ (text "disk_gb", x.disk_gb)
    ∷ []

unfoldable pub worker_capabilities_from_dict : Dict Json → WorkerCapabilities
worker_capabilities_from_dict d = record {
  cpu_cores = get_or (text "cpu_cores") (int (pos 1)) d;
  memory_mb = get_or (text "memory_mb") (int (pos 512)) d;
  gpu_count = get_or (text "gpu_count") (int (pos 0)) d;
  gpu_memory_mb = get_or (text "gpu_memory_mb") (int (pos 0)) d;
  disk_gb = get_or (text "disk_gb") (int (pos 10)) d;
}

pub record WorkerSchema : Type 0 where
  pub id : Json
  pub owner_id : Json
  pub status : Json
  pub ip_address : Json
  pub capabilities : Json
  pub auth_token : Json
  pub last_heartbeat : Json
  pub registered_at : Json
  pub current_job_id : Json
  pub jobs_completed : Json
  pub credits_earned : Json

-- The defaults of the dataclass.
abbrev pub worker_schema : Json → Json → WorkerSchema
worker_schema id owner_id = record {
  id = id;
  owner_id = owner_id;
  status = str (text "idle");
  ip_address = str (text "unknown");
  capabilities = null;
  auth_token = null;
  last_heartbeat = null;
  registered_at = null;
  current_job_id = null;
  jobs_completed = int (pos 0);
  credits_earned = real (pos 0);
}

unfoldable pub worker_schema_to_dict : WorkerSchema → Dict Json
worker_schema_to_dict x =
    (text "id", x.id)
    ∷ (text "owner_id", x.owner_id)
    ∷ (text "status", x.status)
    ∷ (text "ip_address", x.ip_address)
    ∷ (text "capabilities", x.capabilities)
    ∷ (text "auth_token", x.auth_token)
    ∷ (text "last_heartbeat", x.last_heartbeat)
    ∷ (text "registered_at", x.registered_at)
    ∷ (text "current_job_id", x.current_job_id)
    ∷ (text "jobs_completed", x.jobs_completed)
    ∷ (text "credits_earned", x.credits_earned)
    ∷ []

unfoldable pub worker_schema_from_dict : Dict Json → WorkerSchema
worker_schema_from_dict d = record {
  id = get_or (text "id") (str (text "")) d;
  owner_id = get_or (text "owner_id") (str (text "")) d;
  status = get_or (text "status") (str (text "idle")) d;
  ip_address = get_or (text "ip_address") (str (text "unknown")) d;
  capabilities = get_or (text "capabilities") null d;
  auth_token = get_or (text "auth_token") null d;
  last_heartbeat = get_or (text "last_heartbeat") null d;
  registered_at = get_or (text "registered_at") null d;
  current_job_id = get_or (text "current_job_id") null d;
  jobs_completed = get_or (text "jobs_completed") (int (pos 0)) d;
  credits_earned = get_or (text "credits_earned") (real (pos 0)) d;
}
