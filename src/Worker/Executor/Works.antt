-- ===== src/Worker/Executor/Works.antt =====
-- worker/task_executor.py: an execution in which Docker and the file system work.
use the_grid_x.Base.{
  ℤ, ◌≡◌, refl, sym, subst, Bool-cases, inl, inr, true, false, Option, none, some, is_some, List,
  Text, text_eq_refl, is_empty, Dict, lookup, insert, lookup-insert, if◌then◌else◌,
}
use the_grid_x.Worker.Tasks.{Task, completed, failed}
use the_grid_x.Worker.Queue.{TaskQueue, mark_completed, mark_failed}
use the_grid_x.Worker.Exec.{Failure, Attempt, returned, raised, Exec}
use the_grid_x.Worker.Exec.Ensures.{
  Ensures, Ensures-bind, Ensures-pure, Ensures-gets, Ensures-change, Ensures-weaken, Ensures-done,
  Ensures-answered, Ensures-fact, Ensures-part, Ensures-if, Post,
}
use the_grid_x.Worker.Docker.Quiet.{IsQuiet, remove_workspace-IsQuiet, remove_container-IsQuiet}
use the_grid_x.Worker.Docker.{
  Sdk, Call, caught, DockerConfig, DockerManager, RawStats, present, make_workspace, ensure_image,
  add_container, create_available, create_container, is_managed, find_container, start_container,
  wait_for_container, get_container_logs, get_container_stats,
}
use the_grid_x.Worker.Executor.Code.{prepare_task_code}
use the_grid_x.Worker.Executor.InDocker.{
  Environment, Progress, Finished, set_manager, docker, container_id_of, config_of, workspace_for,
  set_up, wait_with_timeout, observe, remove_host_workspace, try_in_docker,
}
use the_grid_x.Worker.Executor.Execute.{
  TaskExecutor, Report, is_zero_code, succeeded_with, timed, parse_result, conclude,
  execute_in_docker, exit_message,
}

-- No call raises, and the container ends with this exit code and these logs.
pub record Works (sdk : Sdk) (task : Task) (code : ℤ) (logs : Text) : Type 0 where
  pub image : (image : Text) → sdk.get_image image ≡ present
  pub create : (c : DockerConfig) → sdk.create c ≡ none
  pub makedirs : (path : Text) → sdk.makedirs path ≡ none
  pub write : (path : Text) → sdk.write path ≡ none
  pub prompt : sdk.expires (container_id_of task) ≡ false
  pub wait : sdk.wait (container_id_of task) ≡ returned code
  pub told : sdk.logs (container_id_of task) ≡ returned logs
  pub stats : (stats : RawStats) × (sdk.stats (container_id_of task) ≡ returned stats)

module _ (env : Environment) (task : Task) (code : ℤ) (logs : Text)
    (works : Works env.sdk task code logs) where
  abbrev Present : DockerManager → Type 0
  Present m = is_some (lookup (container_id_of task) m.containers) ≡ true

  abbrev Available : DockerManager → Type 0
  Available m = m.available ≡ true

  abbrev Never : DockerManager → Type 0
  Never _ = ⊥

  make_workspace-Available :
      (path : Text) → Ensures Available (make_workspace env.sdk path) (λ _ m. Available m) Never
  unfolding make_workspace
  make_workspace-Available path =
      Ensures-bind _ (λ _ m. Available m) _ _ _ _ (Ensures-done _ _ (works.makedirs path))
        (λ _. Ensures-change _ _ _ (λ m h. h))

  prepare_task_code-Available :
      (path : Text)
      → Ensures Available
          (prepare_task_code env.sdk task.language task.code path)
          (λ _ m. Available m)
          Never
  unfolding prepare_task_code
  prepare_task_code-Available path =
      Ensures-bind _ (λ _ m. Available m) _ _ _ _ (Ensures-done _ _ (works.write _))
        (λ _.
          Ensures-bind _ (λ _ m. Available m) _ _ _ _ (Ensures-change _ _ _ (λ m h. h))
            (λ _. Ensures-pure _ _ _ (λ m h. h)))

  managed_after :
      (c : DockerConfig) (d : Dict DockerConfig)
      → is_some (lookup (container_id_of task) (insert (container_id_of task) c d)) ≡ true
  managed_after c d =
      rw
        (
          lookup-insert (container_id_of task) (container_id_of task) c d,
          text_eq_refl (container_id_of task),
        )
        refl

  add_container-Present :
      (c : DockerConfig)
      → Ensures Available (add_container env.sdk (container_id_of task) c) (λ _ m. Present m) Never
  unfolding add_container
  add_container-Present c =
      Ensures-bind _ (λ _ m. Available m) _ _ _ _ (Ensures-done _ _ (works.create c))
        (λ _. Ensures-change _ _ _ (λ m h. managed_after c m.containers))

  ensure_image-Available :
      (image : Text) → Ensures Available (ensure_image env.sdk image) (λ _ m. Available m) Never
  unfolding ensure_image
  ensure_image-Available image = rw (works.image image) (Ensures-pure _ _ _ (λ m h. h))

  create_container-Present :
      (command : List Text)
      → Ensures Available
          (create_container env.sdk env.fresh_id env.fresh
            (config_of task command)
            (some (container_id_of task))
            (some (workspace_for env task)))
          (λ r m. (r.0 ≡ container_id_of task) × Present m)
          Never
  unfolding create_container create_available
  create_container-Present command =
      Ensures-bind _ (λ available m. (available ≡ true) × Available m) _ _ _ _
        (Ensures-gets _ _ _ (λ m h. (h, h)))
        (λ available. Ensures-fact _ _ _ _ (λ e. rw e (
          Ensures-bind _ (λ _ m. Available m) _ _ _ _ (make_workspace-Available _)
            (λ _.
              Ensures-bind _ (λ _ m. Available m) _ _ _ _ (ensure_image-Available _)
                (λ _.
                  Ensures-bind _ (λ _ m. Present m) _ _ _ _ (add_container-Present _)
                    (λ _. Ensures-pure _ _ _ (λ m h. (refl, h))))))))

  set_up-Present :
      Ensures
        (λ p. Available p.docker_manager)
        (set_up env task)
        (λ id p. (id ≡ container_id_of task) × Present p.docker_manager)
        (λ _. ⊥)
  unfolding set_up
  set_up-Present =
      Ensures-bind _ (λ _ p. Available p.docker_manager) _ _ _ _ (Ensures-change _ _ _ (λ p h. h))
        (λ _.
          Ensures-bind _ (λ _ p. Available p.docker_manager) _ _ _ _
            (Ensures-part _ _ (λ m p. refl) _ _ _ (make_workspace-Available _))
            (λ _.
              Ensures-bind _ (λ _ p. Available p.docker_manager) _ _ _ _
                (Ensures-part _ _ (λ m p. refl) _ _ _ (prepare_task_code-Available _))
                (λ prepared.
                  Ensures-bind _ (λ r p. (r.0 ≡ container_id_of task) × Present p.docker_manager) _
                    _ _ _
                    (Ensures-part _ _ (λ m p. refl) _ _ _ (create_container-Present prepared.1))
                    (λ r.
                      Ensures-bind _
                        (λ _ p. (r.0 ≡ container_id_of task) × Present p.docker_manager) _ _ _ _
                        (Ensures-change _ _ _ (λ p h. h)) (λ _. Ensures-pure _ _ _ (λ p h. h))))))

  find_container-Present :
      Ensures Present (find_container env.sdk (container_id_of task)) (λ _ m. Present m) Never
  unfolding find_container is_managed
  find_container-Present =
      Ensures-bind _ (λ managed m. (managed ≡ true) × Present m) _ _ _ _
        (Ensures-gets _ _ _ (λ m h. (h, h)))
        (λ managed. Ensures-fact _ _ _ _ (λ e. rw e (Ensures-pure _ _ _ (λ m h. h))))

  caught-Present :
      (call : Call) (e : Option Failure)
      → Ensures Present (caught env.sdk call e) (λ _ m. Present m) Never
  caught-Present call none =
      Ensures-bind _ (λ _ m. Present m) _ _ _ _ (Ensures-change _ _ _ (λ m h. h))
        (λ _. Ensures-pure _ _ _ (λ m h. h))
  caught-Present call (some e) = Ensures-pure _ _ _ (λ m h. h)

  wait-Present :
      Ensures Present
        (wait_with_timeout env (container_id_of task))
        (λ r m. (r.exit_code ≡ code) × Present m)
        Never
  unfolding wait_for_container
  wait-Present =
      rw (works.prompt, works.wait)
        (Ensures-bind _ (λ _ m. Present m) _ _ _ _ find_container-Present
          (λ _. Ensures-pure _ _ _ (λ m h. (refl, h))))

  abbrev Told : Finished → Type 0
  Told f = f ≡ record { exit_code = code; logs = logs }

  stats-Present :
      Ensures Present (get_container_stats env.sdk (container_id_of task)) (λ _ _. Unit {0}) Never
  unfolding get_container_stats
  stats-Present =
      Ensures-bind _ (λ _ m. Present m) _ _ _ _ find_container-Present
        (λ _.
          Ensures-bind _ (λ s m. (s ≡ works.stats.0) × Present m) _ _ _ _
            (Ensures-answered _ _ _ works.stats.1) (λ s. Ensures-pure _ _ _ (λ m h. tt)))

  logs-Present :
      Ensures Present
        (get_container_logs env.sdk (container_id_of task))
        (λ l m. (l ≡ logs) × Present m)
        Never
  unfolding get_container_logs
  logs-Present =
      Ensures-bind _ (λ _ m. Present m) _ _ _ _ find_container-Present
        (λ _. Ensures-answered _ _ _ works.told)

  start-Present :
      Ensures Present (start_container env.sdk (container_id_of task)) (λ _ m. Present m) Never
  unfolding start_container
  start-Present =
      Ensures-bind _ (λ _ m. Present m) _ _ _ _ find_container-Present (λ _. caught-Present _ _)

  observe-Told : Ensures Present (observe env (container_id_of task)) (λ f _. Told f) Never
  unfolding observe
  observe-Told =
      Ensures-bind _ (λ _ m. Present m) _ _ _ _ start-Present
        (λ _.
          Ensures-bind _ (λ r m. (r.exit_code ≡ code) × Present m) _ _ _ _ wait-Present
            (λ r. Ensures-fact _ _ _ _ (λ (e : r.exit_code ≡ code).
              Ensures-bind _ (λ l m. (l ≡ logs) × Present m) _ _ _ _ logs-Present
                (λ l. Ensures-fact _ _ _ _ (λ (k : l ≡ logs).
                  Ensures-bind _ (λ _ _. Unit {0}) _ _ _ _ stats-Present
                    (λ _. Ensures-pure _ _ _ (λ m h. told_by r.exit_code l e k)))))))
    where
      told_by : (c : ℤ) (l : Text) → c ≡ code → l ≡ logs → Told (record { exit_code = c; logs = l })
      told_by c l e k = λ i. record { exit_code = e i; logs = k i }

  -- The removal of what is left gives its answer, and raises nothing.
  docker-IsQuiet :
      {A : Type 0} (P : Progress → Type 0) (m : Exec DockerManager A)
      → Ensures (λ _. Unit {0}) m (λ _ _. Unit {0}) Never
      → Ensures P (docker m) (λ _ _. Unit {0}) (λ _. ⊥)
  docker-IsQuiet P m h = record {
    at = λ p _.
        (Ensures-part (λ q. q.docker_manager) set_manager (λ m p. refl) (λ _ _. Unit {0}) Never m
            h).at
          p tt;
  }

  host-IsQuiet : (path : Option Text) → IsQuiet (remove_host_workspace env path)
  host-IsQuiet none = Ensures-pure _ _ _ (λ m h. tt)
  host-IsQuiet (some path) =
      Ensures-if _ _ _ _ _ (Ensures-pure _ _ _ (λ m h. tt)) (remove_workspace-IsQuiet env.sdk path)

  observe-Progress :
      Ensures
        (λ p. Present p.docker_manager)
        (docker (observe env (container_id_of task)))
        (λ f _. Told f × Unit {0})
        (λ _. ⊥)
  observe-Progress =
      Ensures-part (λ p. p.docker_manager) set_manager (λ m p. refl) (λ f _. Told f × Unit {0})
        Never _ (Ensures-weaken _ _ _ _ _ (λ f m h. (h, tt)) (λ m h. h) observe-Told)

  try_in_docker-Told :
      Ensures (λ p. Available p.docker_manager) (try_in_docker env task) (λ f _. Told f) (λ _. ⊥)
  unfolding try_in_docker
  try_in_docker-Told =
      Ensures-bind _ (λ id p. (id ≡ container_id_of task) × Present p.docker_manager) _ _ _ _
        set_up-Present
        (λ id. Ensures-fact _ _ _ _ (λ (e : id ≡ container_id_of task). rw e (
          Ensures-bind _ (λ f _. Told f × Unit {0}) _ _ _ _ observe-Progress
            (λ f. Ensures-fact _ _ _ _ (λ (told : Told f).
              Ensures-bind _ (λ _ _. Unit {0}) _ _ _ _
                (docker-IsQuiet _ _ (remove_container-IsQuiet env.sdk _))
                (λ _.
                  Ensures-bind _ (λ _ _. Unit {0}) _ _ _ _ (Ensures-gets _ _ _ (λ p h. tt))
                    (λ ws.
                      Ensures-bind _ (λ _ _. Unit {0}) _ _ _ _
                        (docker-IsQuiet _ _ (host-IsQuiet ws))
                        (λ _. Ensures-pure _ _ _ (λ p h. told)))))))))

-- What is reported of an exit code and logs, and what the queue then holds.
abbrev pub report_of : Environment → (code : ℤ) (logs : Text) → Report
report_of env code logs =
    if is_zero_code code
    then record {
      status = completed;
      output = some logs;
      exit_code = none;
      error = none;
      duration_seconds = some env.duration_seconds;
    }
    else record {
      status = failed;
      output = none;
      exit_code = some code;
      error = some (if is_empty logs then exit_message env code else logs);
      duration_seconds = some env.duration_seconds;
    }

abbrev pub queue_after :
    Environment → (task_id : Text) (code : ℤ) (logs : Text) → TaskQueue → TaskQueue
queue_after env task_id code logs q =
    if is_zero_code code
    then mark_completed task_id
        (some (succeeded_with env.duration_seconds (record { exit_code = code; logs = logs }))) q
    else mark_failed task_id (exit_message env code) (some (timed env.duration_seconds)) q

abbrev Concluded : Environment → Task → ℤ → Text → TaskExecutor → Report × TaskExecutor → Type 0
Concluded env task code logs x r =
    (r.0 ≡ report_of env code logs)
    × (r.1.task_queue ≡ queue_after env task.task_id code logs x.task_queue)

parse_result-Concluded :
    (env : Environment) (task : Task) (code : ℤ) (logs : Text) (m : DockerManager)
    (x : TaskExecutor)
    → Concluded env task code logs x
        (parse_result env task (record { exit_code = code; logs = logs }) m x)
unfolding parse_result
parse_result-Concluded env task code logs m x = elim (Bool-cases (is_zero_code code)) [
  | inl zero ↦ rw zero (refl, refl)
  | inr other ↦ rw other (refl, refl)
]

conclude-Concluded :
    (env : Environment) (task : Task) (code : ℤ) (logs : Text) (r : Attempt Finished × Progress)
    (x : TaskExecutor)
    → Post (λ f _. f ≡ record { exit_code = code; logs = logs }) (λ _. ⊥) r
    → Concluded env task code logs x (conclude env task r x)
unfolding conclude
conclude-Concluded env task code logs (returned f, p) x told =
    subst (λ g. Concluded env task code logs x (parse_result env task g p.docker_manager x))
      (sym told) (parse_result-Concluded env task code logs p.docker_manager x)
conclude-Concluded env task code logs (raised e, p) x h = absurd h

-- Where Docker and the file system work and the container ends with an exit code and logs, the
-- execution reports the task as completed with the logs for the code 0, and as failed with the code
-- for any other, and the task queue is told the same; there the logs of a failure are left out.
pub execute_in_docker-Works :
    (env : Environment) (task : Task) (code : ℤ) (logs : Text) (x : TaskExecutor)
    → Works env.sdk task code logs
    → x.docker_manager.available ≡ true
    → ((execute_in_docker env task x).0 ≡ report_of env code logs)
      × ((execute_in_docker env task x).1.task_queue
          ≡ queue_after env task.task_id code logs x.task_queue)
unfolding execute_in_docker
execute_in_docker-Works env task code logs x works available =
    conclude-Concluded env task code logs _ x
      ((try_in_docker-Told env task code logs works).at _ available)
