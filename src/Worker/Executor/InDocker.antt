-- ===== src/Worker/Executor/InDocker.antt =====
-- worker/task_executor.py: the `try` block of `_execute_in_docker`, and what its handlers clean up.
use the_grid_x.Base.{
  ℕ, ◌*◌, ltb, ℤ, Bool, true, Option, none, some, or_else, List, ◌++◌, Text, text, is_empty,
  if◌then◌else◌,
}
use the_grid_x.Worker.Tasks.{Task}
use the_grid_x.Worker.Exec.{timed_out, Exec, pure, raise, gets, change, within, ◌>>=◌, ◌>>◌}
use the_grid_x.Worker.Docker.{
  Sdk, DockerManager, ContainerConfig, container_config, WaitResult, create_container,
  start_container, stop_container, wait_for_container, get_container_logs, get_container_stats,
  remove_container, make_workspace, remove_workspace,
}
use the_grid_x.Worker.Executor.Code.{get_docker_image, path_join, prepare_task_code}

-- What one execution gets from outside: `tempfile.gettempdir()`, `str` of an int, two fresh ids, and
-- the time that it took, rounded.
pub record Environment : Type 0 where
  pub sdk : Sdk
  pub tempdir : Text
  pub decimal : ℤ → Text
  pub fresh_id : Text
  pub fresh : Text
  pub duration_seconds : ℕ

-- The local variables that the handlers read, with the manager.
pub record Progress : Type 0 where
  pub docker_manager : DockerManager
  pub created_container : Bool
  pub workspace_volume : Option Text

abbrev pub set_manager : DockerManager → Progress → Progress
set_manager m p = record p { docker_manager = m }

abbrev pub docker : {A : Type 0} → Exec DockerManager A → Exec Progress A
docker = within (λ p. p.docker_manager) set_manager

-- The exit code and the logs.
pub record Finished : Type 0 where
  pub exit_code : ℤ
  pub logs : Text

abbrev pub container_id_of : Task → Text
container_id_of task = text "task-" ++ task.task_id

-- `gpu_count if gpu_count > 0 else None`
abbrev pub gpus_of : Option ℕ → Option ℕ
gpus_of none = none
gpus_of (some n) = if ltb 0 n then some n else none

-- The limits default to one core and one GB.
unfoldable pub config_of : Task → (command : List Text) → ContainerConfig
config_of task command = record (container_config (get_docker_image task.language)) {
  command = some command;
  cpu_limit = some (or_else task.requirements.cores 1 * 100_000);
  memory_limit = some (or_else task.requirements.total_gb 1 * 1024);
  gpu_count = gpus_of task.requirements.gpu_count;
  network_disabled = true;
  read_only = true;
  timeout = some task.timeout;
}

module _ (env : Environment) where
  unfoldable pub workspace_for : Task → Text
  workspace_for task = path_join (path_join env.tempdir (text "grid-x-workspace")) task.task_id

  -- Up to `created_container = True`.
  unfoldable pub set_up : Task → Exec Progress Text
  set_up task =
      let path : Text = workspace_for task in
      do
        change λ p. record p { workspace_volume = some path }
        docker (make_workspace env.sdk path)
        prepared ← docker (prepare_task_code env.sdk task.language task.code path)
        identified ← docker (
            create_container env.sdk env.fresh_id env.fresh (config_of task prepared.1)
              (some (container_id_of task)) (some path))
        change λ p. record p { created_container = true }
        pure identified.0

  -- `asyncio.wait_for` of `wait_for_container`.
  abbrev pub wait_with_timeout : (container_id : Text) → Exec DockerManager WaitResult
  wait_with_timeout container_id =
      if env.sdk.expires container_id
      then raise timed_out
      else wait_for_container env.sdk container_id

  -- From `start_container` to "Get stats".
  unfoldable pub observe : (container_id : Text) → Exec DockerManager Finished
  observe container_id = do
    start_container env.sdk container_id
    result ← wait_with_timeout container_id
    logs ← get_container_logs env.sdk container_id
    get_container_stats env.sdk container_id
    pure (record { exit_code = result.exit_code; logs = logs })

  -- "Remove host workspace (best-effort)"
  abbrev pub remove_host_workspace : Option Text → Exec DockerManager (Unit {0})
  remove_host_workspace none = pure tt
  remove_host_workspace (some path) =
      if is_empty path then pure tt else remove_workspace env.sdk path

  -- The block, as far as the task queue is not touched.
  unfoldable pub try_in_docker : Task → Exec Progress Finished
  try_in_docker task = do
    container_id ← set_up task
    finished ← docker (observe container_id)
    docker (remove_container env.sdk container_id)
    workspace_volume ← gets (λ (p : Progress). p.workspace_volume)
    docker (remove_host_workspace workspace_volume)
    pure finished

  -- `except asyncio.TimeoutError`: the container, if it was created, is the task's.
  unfoldable pub clean_up_timeout : Task → Progress → DockerManager
  clean_up_timeout task p =
      let container_id : Text = container_id_of task in
      let gone : DockerManager =
        if p.created_container
        then (remove_container env.sdk container_id
            (stop_container env.sdk container_id p.docker_manager).1).1
        else p.docker_manager in
      (remove_host_workspace p.workspace_volume gone).1

  -- `except Exception`
  unfoldable pub clean_up_exception : Task → Progress → DockerManager
  clean_up_exception task p =
      let gone : DockerManager =
        if p.created_container
        then (remove_container env.sdk (container_id_of task) p.docker_manager).1
        else p.docker_manager in
      (remove_host_workspace p.workspace_volume gone).1
