-- ===== src/Worker/Docker/Manager.antt =====
-- worker/docker_manager.py: the methods of `DockerManager`.
use the_grid_x.Base.{
  ℕ, ◌-◌, ltb, ℤ, pos, negsuc, Bool, true, false, ◌||◌, Option, none, some, is_some, or_else, List,
  [], ◌∷◌, ◌++◌, Text, text, text_eq, is_empty, Dict, lookup, insert, erase, if◌then◌else◌, keep,
  not, ◌&&◌, ◌*ℤ◌, ◌-ℤ◌,
}
use the_grid_x.Worker.Exec.{
  Failure, failure, Attempt, returned, raised, Exec, pure, raise, answered, gets, change, done,
  ◌>>=◌, ◌>>◌,
}
use the_grid_x.Worker.Docker.Answers.{
  DockerConfig, RawStats, Image, present, missing, unreachable, Sdk, Call, pulled_image, created,
  began, stopped, removed, made, emptied,
}
use the_grid_x.Worker.Docker.Config.{ContainerConfig, workspace_of, secure_config}

-- A container stands for what it was created with. Beside the manager's fields: the directories
-- below the workspace directory that exist, and the calls so far.
pub record DockerManager : Type 0 where
  pub available : Bool
  pub containers : Dict DockerConfig
  pub workspaces : List Text
  pub calls : List Call

-- `available` says whether the constructor reached Docker.
abbrev pub new_manager : (available : Bool) → DockerManager
new_manager available = record {
  available = available;
  containers = [];
  workspaces = [];
  calls = [];
}

-- The keys of a dict.
abbrev pub keys {ℓ} : {V : Type ℓ} → Dict V → List Text
keys [] = []
keys ((k, _) ∷ d) = k ∷ keys d

abbrev pub docker_unavailable : Failure
docker_unavailable = failure (
    text
      "Docker is not available. Ensure Docker Desktop is running on Windows or Docker daemon is running on Linux/Mac.")

abbrev pub without : Text → List Text → List Text
without path = keep (λ w. not (text_eq w path))

abbrev pub is_member : Text → List Text → Bool
is_member path [] = false
is_member path (w ∷ ws) = text_eq w path || is_member path ws

-- A percentage, as it is before it is divided.
pub record Fraction : Type 0 where
  pub numerator : ℤ
  pub denominator : ℕ

abbrev pub no_usage : Fraction
no_usage = record { numerator = pos 0; denominator = 1 }

-- `_calculate_cpu_percent`. A missing key of the processor's counts raises, which is caught.
unfoldable pub calculate_cpu_percent : (total pretotal system pre_system : Option ℕ) → Fraction
calculate_cpu_percent (some total) (some pretotal) (some system) (some pre_system) =
    if ltb pre_system system
    then record {
      numerator = pos 100 *ℤ (pos total -ℤ pos pretotal);
      denominator = system - pre_system;
    }
    else no_usage
calculate_cpu_percent _ _ _ _ = no_usage

pub record ContainerStats : Type 0 where
  pub cpu_usage : Fraction
  pub memory_usage : ℕ
  pub memory_limit : ℕ

unfoldable pub container_stats : RawStats → ContainerStats
container_stats stats = record {
  cpu_usage =
      calculate_cpu_percent stats.cpu_total stats.precpu_total stats.system_cpu
        stats.pre_system_cpu;
  memory_usage = or_else stats.memory_usage 0;
  memory_limit = or_else stats.memory_limit 0;
}

-- The "status" follows from the two.
pub record WaitResult : Type 0 where
  pub exit_code : ℤ
  pub error : Option Failure

abbrev pub called : Call → DockerManager → DockerManager
called call m = record m { calls = m.calls ++ call ∷ [] }

-- Each method below takes what Docker answers.
module _ (sdk : Sdk) where
  -- `os.makedirs(path, exist_ok=True)`
  unfoldable pub make_workspace : Text → Exec DockerManager (Unit {0})
  make_workspace path = do
    done (sdk.makedirs path)
    change λ m. called (made path) (record m { workspaces = path ∷ without path m.workspaces })

  -- `shutil.rmtree(path, ignore_errors=True)`
  unfoldable pub remove_workspace : Text → Exec DockerManager (Unit {0})
  remove_workspace path =
      if sdk.rmtree path
      then change (λ m. called (emptied path) (record m { workspaces = without path m.workspaces }))
      else pure tt

  abbrev pub by_image : Image → (image : Text) → Exec DockerManager (Unit {0})
  by_image present image = pure tt
  by_image (unreachable e) image = raise e
  by_image missing image = do done (sdk.pull_image image); change (called (pulled_image image))

  -- "Pull image if not exists"
  unfoldable pub ensure_image : Text → Exec DockerManager (Unit {0})
  ensure_image image = by_image (sdk.get_image image) image

  abbrev pub labelled : (workspace_volume container_id : Text) → DockerConfig → DockerConfig
  labelled workspace_volume container_id c = record c {
    labels = (text "workspace_volume", workspace_volume) ∷ (text "grid_x_id", container_id) ∷ [];
  }

  -- `container_id or str(uuid.uuid4())`
  abbrev pub named : (fresh : Text) → Option Text → Text
  named fresh none = fresh
  named fresh (some container_id) = if is_empty container_id then fresh else container_id

  -- The container is created, and kept under its id.
  unfoldable pub add_container :
      (container_id : Text) → DockerConfig → Exec DockerManager (Unit {0})
  add_container container_id c = do
    done (sdk.create c)
    change λ m. called (created c) (record m { containers = insert container_id c m.containers })

  -- `fresh_id` and `fresh` are ids of `uuid4`. The workspace is made by `_create_secure_config`.
  unfoldable pub create_available :
      (fresh_id fresh : Text)
      → ContainerConfig
      → (container_id workspace_path : Option Text) → Exec DockerManager (Text × Text)
  create_available fresh_id fresh config container_id workspace_path =
      let id : Text = named fresh_id container_id in
      let workspace_volume : Text = workspace_of fresh workspace_path in
      do
        make_workspace workspace_volume
        ensure_image config.image
        add_container id (labelled workspace_volume id (secure_config config workspace_volume))
        pure (id, workspace_volume)

  unfoldable pub create_container :
      (fresh_id fresh : Text)
      → ContainerConfig
      → (container_id workspace_path : Option Text) → Exec DockerManager (Text × Text)
  create_container fresh_id fresh config container_id workspace_path = do
    available ← gets (λ (m : DockerManager). m.available)
    if available
        then create_available fresh_id fresh config container_id workspace_path
        else raise docker_unavailable

  -- `container_id in self.containers`
  unfoldable pub is_managed : Text → Exec DockerManager Bool
  is_managed container_id = gets λ m. is_some (lookup container_id m.containers)

  -- `if container_id not in self.containers: raise ValueError(…)`
  unfoldable pub find_container : Text → Exec DockerManager (Unit {0})
  find_container container_id = do
    managed ← is_managed container_id
    if managed
        then pure tt
        else raise (failure (text "Container " ++ (container_id ++ text " not found")))

  -- What a call without a value leads to where its exceptions are caught.
  abbrev pub caught : (call : Call) → Option Failure → Exec DockerManager Bool
  caught call none = do change (called call); pure true
  caught call (some e) = pure false

  unfoldable pub start_container : Text → Exec DockerManager Bool
  start_container container_id = do
    find_container container_id
    caught (began container_id) (sdk.start container_id)

  unfoldable pub stop_container : Text → Exec DockerManager Bool
  stop_container container_id = do
    managed ← is_managed container_id
    if managed then caught (stopped container_id) (sdk.stop container_id) else pure false

  -- "Clean up workspace", where it exists.
  unfoldable pub clean_up : (workspace_volume : Option Text) → Exec DockerManager (Unit {0})
  clean_up none = pure tt
  clean_up (some path) = do
    exists ← gets (λ (m : DockerManager). is_member path m.workspaces)
    if not (is_empty path) && exists then remove_workspace path else pure tt

  -- `container.remove(force=True)`, and what follows it.
  abbrev pub by_removal :
      (container_id : Text) → DockerConfig → Option Failure → Exec DockerManager Bool
  by_removal container_id c (some e) = pure false
  by_removal container_id c none = do
    change λ m.
        called (removed container_id) (record m { containers = erase container_id m.containers })
    clean_up (lookup (text "workspace_volume") c.labels)
    pure true

  abbrev pub remove_found : (container_id : Text) → Option DockerConfig → Exec DockerManager Bool
  remove_found container_id none = pure false
  remove_found container_id (some c) = do
    caught (stopped container_id) (sdk.stop container_id)
    by_removal container_id c (sdk.remove container_id)

  unfoldable pub remove_container : Text → Exec DockerManager Bool
  remove_container container_id = do
    found ← gets (λ (m : DockerManager). lookup container_id m.containers)
    remove_found container_id found

  unfoldable pub get_container_logs : Text → Exec DockerManager Text
  get_container_logs container_id = do find_container container_id; answered (sdk.logs container_id)

  -- What `get_container_stats` gives: the fraction is the `cpu_usage`, in percent.
  unfoldable pub get_container_stats : Text → Exec DockerManager ContainerStats
  get_container_stats container_id = do
    find_container container_id
    stats ← answered (sdk.stats container_id)
    pure (container_stats stats)

  -- An exception of `wait`, its timeout included, gives the exit code -1.
  abbrev pub waited : Attempt ℤ → WaitResult
  waited (returned code) = record { exit_code = code; error = none }
  waited (raised e) = record { exit_code = negsuc 0; error = some e }

  unfoldable pub wait_for_container : Text → Exec DockerManager WaitResult
  wait_for_container container_id = do
    find_container container_id
    pure (waited (sdk.wait container_id))

  abbrev pub list_containers : DockerManager → List Text
  list_containers m = keys m.containers

  unfoldable pub remove_each : List Text → Exec DockerManager (Unit {0})
  remove_each [] = pure tt
  remove_each (container_id ∷ rest) = do remove_container container_id; remove_each rest

  unfoldable pub cleanup_all : Exec DockerManager (Unit {0})
  cleanup_all = do container_ids ← gets list_containers; remove_each container_ids
