-- ===== src/Worker/Docker/Config.antt =====
-- worker/docker_manager.py: `ContainerConfig` and `_create_secure_config`.
use the_grid_x.Base.{
  ℕ, Bool, true, false, Option, none, some, List, [], ◌∷◌, ◌++◌, Text, text, is_empty, Dict,
  or_else, if◌then◌else◌, ◌==◌, ltb,
}
use the_grid_x.Worker.Docker.Answers.{DockerConfig}

-- A limit on the processor counts hundred-thousandths of a core; one on memory is a number of
-- megabytes, written as a text that is not empty.
pub record ContainerConfig : Type 0 where
  pub image : Text
  pub command : Option (List Text)
  pub environment : Option (Dict Text)
  pub cpu_limit : Option ℕ
  pub memory_limit : Option ℕ
  pub gpu_count : Option ℕ
  pub network_disabled : Bool
  pub read_only : Bool
  pub user : Option Text
  pub working_dir : Text
  pub timeout : Option ℕ

-- The defaults of the dataclass.
abbrev pub container_config : Text → ContainerConfig
container_config image = record {
  image = image;
  command = none;
  environment = none;
  cpu_limit = none;
  memory_limit = none;
  gpu_count = none;
  network_disabled = false;
  read_only = true;
  user = none;
  working_dir = text "/workspace";
  timeout = none;
}

abbrev pub cpu_period_us : ℕ
cpu_period_us = 100_000

-- `if n: d[key] = n`
abbrev pub if_positive : Option ℕ → Option ℕ
if_positive none = none
if_positive (some n) = if n == 0 then none else some n

-- `if config.cpu_limit: d['cpu_period'] = 100000`
abbrev pub period_of : Option ℕ → Option ℕ
period_of none = none
period_of (some n) = if n == 0 then none else some cpu_period_us

abbrev pub device_requests_of : Option ℕ → List ℕ
device_requests_of none = []
device_requests_of (some n) = if ltb 0 n then n ∷ [] else []

abbrev pub user_of : Option Text → Text
user_of none = text "1000:1000"
user_of (some user) = if is_empty user then text "1000:1000" else user

abbrev pub tmpfs_of : (read_only : Bool) → Dict Text
tmpfs_of false = []
tmpfs_of true = (text "/tmp", text "rw,noexec,nosuid,size=100m") ∷ []

-- `workspace_path`, or a directory with a fresh name.
unfoldable pub workspace_of : (fresh : Text) → Option Text → Text
workspace_of fresh none = text "/tmp/grid-x-workspace/" ++ fresh
workspace_of fresh (some path) =
    if is_empty path then text "/tmp/grid-x-workspace/" ++ fresh else path

-- The configuration that `_create_secure_config` returns, where the workspace is made.
unfoldable pub secure_config : ContainerConfig → (workspace_volume : Text) → DockerConfig
secure_config config workspace_volume = record {
  image = config.image;
  command = config.command;
  environment = or_else config.environment [];
  working_dir = config.working_dir;
  detach = true;
  auto_remove = false;
  network_disabled = config.network_disabled;
  read_only = config.read_only;
  security_opt = text "no-new-privileges:true" ∷ [];
  cap_drop = text "ALL" ∷ [];
  cap_add = text "CHOWN" ∷ text "SETGID" ∷ text "SETUID" ∷ [];
  cpu_quota = if_positive config.cpu_limit;
  cpu_period = period_of config.cpu_limit;
  mem_limit = config.memory_limit;
  device_requests = device_requests_of config.gpu_count;
  user = user_of config.user;
  volumes = (workspace_volume, (config.working_dir, text "rw")) ∷ [];
  tmpfs = tmpfs_of config.read_only;
  labels = [];
}
