-- ===== src/Worker/Executor/Secure.antt =====
-- worker/task_executor.py: the containers that `_execute_in_docker` creates.
use the_grid_x.Base.{
  ◌≡◌, refl, Bool, true, Option, none, some, List, [], ◌∷◌, Text, text, lookup, text_eq, Bool-cases,
  inl, inr, arith,
}
use the_grid_x.Worker.Tasks.{Task}
use the_grid_x.Worker.Queue.{TaskQueue}
use the_grid_x.Worker.Exec.{timed_out, failure, Attempt, returned, raised, Exec}
use the_grid_x.Worker.Exec.Keeps.{
  Keeps, Keeps-pure, Keeps-raise, Keeps-gets, Keeps-if, Keeps-done, Keeps-change, Keeps-bind,
  Keeps-within,
}
use the_grid_x.Worker.Docker.{
  DockerConfig, DockerManager, new_manager, wrote, secure_config, workspace_of, labelled,
  create_container,
}
use the_grid_x.Worker.Docker.Secure.{
  AllCreate, called-AllCreate, make_workspace-AllCreate, remove_workspace-AllCreate,
  create_container-AllCreate, start_container-AllCreate, stop_container-AllCreate,
  remove_container-AllCreate, wait_for_container-AllCreate, get_container_logs-AllCreate,
  get_container_stats-AllCreate,
}
use the_grid_x.Worker.Executor.Code.{prepare_task_code}
use the_grid_x.Worker.Executor.InDocker.{
  Environment, Progress, Finished, set_manager, docker, container_id_of, config_of, workspace_for,
  set_up, wait_with_timeout, observe, remove_host_workspace, try_in_docker, clean_up_timeout,
  clean_up_exception,
}
use the_grid_x.Worker.Executor.Execute.{
  TaskExecutor, new_executor, give_up, parse_result, conclude, execute_in_docker,
}

-- No network, a root file system that is not written, no privileges to gain, no capability but
-- three, the user 1000:1000, and of the host's files one directory, which the label names.
pub record IsSecure (c : DockerConfig) : Type 0 where
  pub offline : c.network_disabled ≡ true
  pub frozen : c.read_only ≡ true
  pub unprivileged : c.security_opt ≡ text "no-new-privileges:true" ∷ []
  pub dropped : c.cap_drop ≡ text "ALL" ∷ []
  pub added : c.cap_add ≡ text "CHOWN" ∷ text "SETGID" ∷ text "SETUID" ∷ []
  pub user : c.user ≡ text "1000:1000"
  pub mount :
      (path : Text) × (c.volumes ≡ (path, (text "/workspace", text "rw")) ∷ [])
      × (lookup (text "workspace_volume") c.labels ≡ some path)

abbrev pub AllSecure : DockerManager → Type 0
AllSecure = AllCreate IsSecure

abbrev Sealed : Progress → Type 0
Sealed p = AllSecure p.docker_manager

module _ (env : Environment) where
  config_of-IsSecure :
      (task : Task) (command : List Text) (path : Text)
      → IsSecure (
          labelled env.sdk path
            (container_id_of task)
            (secure_config (config_of task command) path))
  unfolding config_of secure_config lookup text_eq
  config_of-IsSecure task command path = record {
    offline = refl;
    frozen = refl;
    unprivileged = refl;
    dropped = refl;
    added = refl;
    user = refl;
    mount = (path, refl, refl);
  }

  -- What the manager keeps, the `try` block keeps.
  docker-Sealed :
      {A : Type 0} (m : Exec DockerManager A) → Keeps AllSecure m → Keeps Sealed (docker m)
  docker-Sealed m = Keeps-within (λ p. p.docker_manager) set_manager m (λ t s h. h)

  prepare_task_code-AllSecure :
      (language code path : Text) → Keeps AllSecure (prepare_task_code env.sdk language code path)
  unfolding prepare_task_code
  prepare_task_code-AllSecure language code path = Keeps-bind _ _ (Keeps-done _) (λ _.
      Keeps-bind _ _ (Keeps-change _ (λ m h. called-AllCreate IsSecure (wrote _ _) m tt h))
        (λ _. Keeps-pure _))

  create-AllSecure :
      (task : Task) (command : List Text)
      → Keeps AllSecure (
          create_container env.sdk env.fresh_id env.fresh
            (config_of task command)
            (some (container_id_of task))
            (some (workspace_for env task)))
  create-AllSecure task command =
      create_container-AllCreate IsSecure env.sdk env.fresh_id env.fresh _ _ _
        (config_of-IsSecure task command (workspace_of env.fresh (some (workspace_for env task))))

  set_up-Sealed : (task : Task) → Keeps Sealed (set_up env task)
  unfolding set_up
  set_up-Sealed task = Keeps-bind _ _ (Keeps-change _ (λ p h. h)) (λ _.
      Keeps-bind _ _ (docker-Sealed _ (make_workspace-AllCreate IsSecure env.sdk _)) (λ _.
        Keeps-bind _ _ (docker-Sealed _ (prepare_task_code-AllSecure _ _ _)) (λ prepared.
          Keeps-bind _ _ (docker-Sealed _ (create-AllSecure task prepared.1))
            (λ _. Keeps-bind _ _ (Keeps-change _ (λ p h. h)) (λ _. Keeps-pure _)))))

  wait-AllSecure : (container_id : Text) → Keeps AllSecure (wait_with_timeout env container_id)
  wait-AllSecure container_id =
      Keeps-if _ _ _ (Keeps-raise _) (wait_for_container-AllCreate IsSecure env.sdk container_id)

  observe-AllSecure : (container_id : Text) → Keeps AllSecure (observe env container_id)
  unfolding observe
  observe-AllSecure container_id =
      Keeps-bind _ _ (start_container-AllCreate IsSecure env.sdk container_id) (λ _.
        Keeps-bind _ _ (wait-AllSecure container_id) (λ _.
          Keeps-bind _ _ (get_container_logs-AllCreate IsSecure env.sdk container_id) (λ _.
            Keeps-bind _ _ (get_container_stats-AllCreate IsSecure env.sdk container_id)
              (λ _. Keeps-pure _))))

  host-AllSecure : (path : Option Text) → Keeps AllSecure (remove_host_workspace env path)
  host-AllSecure none = Keeps-pure tt
  host-AllSecure (some path) =
      Keeps-if _ _ _ (Keeps-pure tt) (remove_workspace-AllCreate IsSecure env.sdk path)

  try_in_docker-Sealed : (task : Task) → Keeps Sealed (try_in_docker env task)
  unfolding try_in_docker
  try_in_docker-Sealed task = Keeps-bind _ _ (set_up-Sealed task) (λ container_id.
      Keeps-bind _ _ (docker-Sealed _ (observe-AllSecure container_id)) (λ _.
        Keeps-bind _ _ (docker-Sealed _ (remove_container-AllCreate IsSecure env.sdk container_id))
          (λ _.
            Keeps-bind _ _ (Keeps-gets _) (λ path.
              Keeps-bind _ _ (docker-Sealed _ (host-AllSecure path)) (λ _. Keeps-pure _)))))

  clean_up_timeout-AllSecure :
      (task : Task) (p : Progress) → Sealed p → AllSecure (clean_up_timeout env task p)
  unfolding clean_up_timeout
  clean_up_timeout-AllSecure task p h = elim (Bool-cases p.created_container) [
    | inl was ↦ rw was (
        (host-AllSecure p.workspace_volume).after _ (
          (remove_container-AllCreate IsSecure env.sdk _).after _
            ((stop_container-AllCreate IsSecure env.sdk _).after p.docker_manager h)))
    | inr never ↦ rw never ((host-AllSecure p.workspace_volume).after p.docker_manager h)
  ]

  clean_up_exception-AllSecure :
      (task : Task) (p : Progress) → Sealed p → AllSecure (clean_up_exception env task p)
  unfolding clean_up_exception
  clean_up_exception-AllSecure task p h = elim (Bool-cases p.created_container) [
    | inl was ↦ rw was (
        (host-AllSecure p.workspace_volume).after _
          ((remove_container-AllCreate IsSecure env.sdk _).after p.docker_manager h))
    | inr never ↦ rw never ((host-AllSecure p.workspace_volume).after p.docker_manager h)
  ]

  conclude-AllSecure :
      (task : Task) (r : Attempt Finished × Progress) (x : TaskExecutor)
      → Sealed r.1
      → AllSecure (conclude env task r x).1.docker_manager
  unfolding conclude parse_result give_up
  conclude-AllSecure task (returned f, p) x h = ground (arith, h)
  conclude-AllSecure task (raised timed_out, p) x h = clean_up_timeout-AllSecure task p h
  conclude-AllSecure task (raised (failure message), p) x h = clean_up_exception-AllSecure task p h

  -- Whatever Docker and the file system answer, each container that an execution creates is secure.
  pub execute_in_docker-AllSecure :
      (task : Task) (x : TaskExecutor)
      → AllSecure x.docker_manager
      → AllSecure (execute_in_docker env task x).1.docker_manager
  unfolding execute_in_docker
  execute_in_docker-AllSecure task x h =
      conclude-AllSecure task _ x ((try_in_docker-Sealed task).after _ h)

-- The executions of tasks one after the other, each in its environment.
abbrev pub execute_all : List (Environment × Task) → TaskExecutor → TaskExecutor
execute_all [] x = x
execute_all ((env, task) ∷ rest) x = execute_all rest (execute_in_docker env task x).1

execute_all_from :
    (tasks : List (Environment × Task)) (x : TaskExecutor)
    → AllSecure x.docker_manager
    → AllSecure (execute_all tasks x).docker_manager
execute_all_from [] x h = h
execute_all_from ((env, task) ∷ rest) x h =
    execute_all_from rest (execute_in_docker env task x).1
      (execute_in_docker-AllSecure env task x h)

-- Whatever the tasks are and whatever Docker and the file system answer, each container that a new
-- executor creates has no network, a root file system that is only read, no capability but CHOWN,
-- SETGID and SETUID and no way to gain privileges, the user 1000:1000, and of the host's files one
-- directory.
pub execute_all-AllSecure :
    (available : Bool) (q : TaskQueue) (tasks : List (Environment × Task))
    → AllSecure (execute_all tasks (new_executor (new_manager available) q)).docker_manager
execute_all-AllSecure available q tasks =
    execute_all_from tasks (new_executor (new_manager available) q) tt
