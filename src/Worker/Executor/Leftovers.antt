-- ===== src/Worker/Executor/Leftovers.antt =====
-- worker/task_executor.py: what `_execute_in_docker` leaves behind.
use the_grid_x.Base.{
  ◌≡◌, refl, Bool, true, false, Option, none, some, [], ◌∷◌, Text, text, is_empty, lookup,
  if◌then◌else◌, ◌⊎◌, inl, inr, arith,
}
use the_grid_x.Worker.Tasks.{Task}
use the_grid_x.Worker.Exec.{
  timed_out, failure, Attempt, returned, raised, Exec, ◌>>=◌, ◌>>◌, within, gets, pure, restore,
}
use the_grid_x.Worker.Exec.Keeps.{Keeps, Keeps-pure, Keeps-done, Keeps-change, Keeps-bind}
use the_grid_x.Worker.Exec.Ensures.{
  Ensures, Ensures-Keeps, Ensures-pure, Ensures-bind, Ensures-within, Ensures-weaken,
  Ensures-change, Ensures-gets, Ensures-fact, Post,
}
use the_grid_x.Worker.Docker.{DockerManager, is_member, remove_container}
use the_grid_x.Worker.Docker.Removed.{
  Absent, make_workspace-Held, remove_workspace-Held, create_container-Absent,
  remove_container-Absent, remove_workspace-gone,
}
use the_grid_x.Worker.Executor.Code.{path_join, prepare_task_code}
use the_grid_x.Worker.Executor.InDocker.{
  Environment, Progress, Finished, set_manager, docker, container_id_of, workspace_for, set_up,
  remove_host_workspace, try_in_docker, clean_up_timeout, clean_up_exception,
}
use the_grid_x.Worker.Executor.Execute.{
  TaskExecutor, give_up, parse_result, conclude, execute_in_docker,
}

path_join-filled : (a b : Text) → is_empty a ≡ false → is_empty (path_join a b) ≡ false
unfolding path_join
path_join-filled [] b h = absurd (cc)
path_join-filled (c ∷ []) [] h = ground arith
path_join-filled (c ∷ d ∷ a) [] h = ground arith
path_join-filled (c ∷ a) (d ∷ b) h = ground arith

path_join-filled_right : (a b : Text) → is_empty b ≡ false → is_empty (path_join a b) ≡ false
unfolding path_join
path_join-filled_right a [] h = absurd (cc)
path_join-filled_right [] (d ∷ b) h = refl
path_join-filled_right (c ∷ a) (d ∷ b) h = ground arith

module _ (env : Environment) (task : Task) where
  workspace-filled : is_empty (workspace_for env task) ≡ false
  unfolding workspace_for
  workspace-filled =
      path_join-filled _ task.task_id
        (path_join-filled_right env.tempdir (text "grid-x-workspace") refl)

  abbrev pub Unmade : DockerManager → Type 0
  Unmade = Absent env.sdk (container_id_of task)

  -- The workspace is known to the handlers.
  abbrev Known : Progress → Type 0
  Known p = p.workspace_volume ≡ some (workspace_for env task)

  abbrev Made : Progress → Type 0
  Made p = Known p × (p.created_container ≡ true)

  -- The handlers know all that there is to clean up.
  abbrev Ready : Progress → Type 0
  Ready p = Known p × ((p.created_container ≡ true) ⊎ Unmade p.docker_manager)

  docker-Known :
      {A : Type 0} {P : DockerManager → Type 0} (Q : A → DockerManager → Type 0)
      (E : DockerManager → Type 0) (m : Exec DockerManager A)
      → Ensures P m Q E
      → Ensures
          (λ p. Known p × P p.docker_manager)
          (docker m)
          (λ a p. Known p × Q a p.docker_manager)
          (λ p. Known p × E p.docker_manager)
  docker-Known = Ensures-within (λ p. p.docker_manager) set_manager Known (λ m p h. h) (λ m p. refl)

  prepare_task_code-Absent :
      Keeps Unmade (prepare_task_code env.sdk task.language task.code (workspace_for env task))
  unfolding prepare_task_code
  prepare_task_code-Absent =
      Keeps-bind _ _ (Keeps-done _)
        (λ _. Keeps-bind _ _ (Keeps-change _ (λ m h. h)) (λ _. Keeps-pure _))

  abbrev Begun : Progress → Type 0
  Begun p = Known p × Unmade p.docker_manager

  -- Where the set-up raises, there is no container yet.
  set_up-Made :
      Ensures
        (λ p. Unmade p.docker_manager)
        (set_up env task)
        (λ id p. (id ≡ container_id_of task) × Known p × (p.created_container ≡ true))
        Begun
  unfolding set_up
  set_up-Made =
      Ensures-bind _ (λ _ p. Begun p) _ Begun _ _ (Ensures-change _ _ _ (λ p h. (refl, h)))
        (λ _.
          Ensures-bind Begun (λ _ p. Begun p) _ Begun _ _
            (docker-Known _ _ _ (
              Ensures-Keeps _
                (make_workspace-Held (λ d. lookup (container_id_of task) d ≡ none) env.sdk _)))
            (λ _.
              Ensures-bind Begun (λ _ p. Begun p) _ Begun _ _
                (docker-Known _ _ _ (Ensures-Keeps _ prepare_task_code-Absent))
                (λ prepared.
                  Ensures-bind Begun (λ r p. Known p × (r.0 ≡ container_id_of task)) _ Begun _ _
                    (docker-Known _ _ _ (
                      create_container-Absent env.sdk (container_id_of task) env.fresh_id env.fresh
                        _ _ _ refl))
                    (λ r.
                      Ensures-bind _ (λ _ p. Made p × (r.0 ≡ container_id_of task)) _ Begun _ _
                        (Ensures-change _ _ _ (λ p h. ((h.0, refl), h.1)))
                        (λ _. Ensures-pure _ _ _ (λ p h. (h.1, h.0.0, h.0.1)))))))

  -- Once there is a container, no method of the manager makes the handlers forget it.
  module _ {A : Type 0} (P R : DockerManager → Type 0) where
    restore-Made :
        (p : Progress) (r : Attempt A × DockerManager)
        → Made p
        → R r.1
        → Post
            (λ _ q. Made q × R q.docker_manager)
            Ready
            (restore {A = A} (λ q. q.docker_manager) set_manager p r)
    restore-Made p (returned a, m) h k = (h, k)
    restore-Made p (raised e, m) h k = (h.0, inl h.1)

    docker-Made :
        (m : Exec DockerManager A)
        → ((d : DockerManager) → P d → R (m d).1)
        → Ensures
            (λ p. Made p × P p.docker_manager)
            (docker m)
            (λ _ p. Made p × R p.docker_manager)
            Ready
    unfolding within
    docker-Made m f = record {
      at = λ p h. restore-Made p (m p.docker_manager) h.0 (f p.docker_manager h.1);
    }

  -- Where the block returns, it has cleaned up.
  abbrev pub Clean : DockerManager → Type 0
  Clean m = Unmade m × (is_member (workspace_for env task) m.workspaces ≡ false)

  module _ (removes : env.sdk.remove (container_id_of task) ≡ none)
      (empties : env.sdk.rmtree (workspace_for env task) ≡ true) where
    -- The last step of each way out.
    host-Clean :
        (ws : Option Text)
        → ws ≡ some (workspace_for env task)
        → (m : DockerManager) → Unmade m
        → Clean (remove_host_workspace env ws m).1
    host-Clean ws e m h =
        rw (e, workspace-filled)
          (
            (remove_workspace-Held (λ d. lookup (container_id_of task) d ≡ none) env.sdk
                  (workspace_for env task)).after
                m h,
            remove_workspace-gone env.sdk (workspace_for env task) m empties,
          )

    docker-Made_only :
        {A : Type 0} (R : DockerManager → Type 0) (m : Exec DockerManager A)
        → ((d : DockerManager) → R (m d).1)
        → Ensures Made (docker m) (λ _ p. Made p × R p.docker_manager) Ready
    docker-Made_only R m f = record {
      at = λ p h. (docker-Made (λ _. Unit {0}) R m (λ d _. f d)).at p (h, tt);
    }

    after_removal :
        (id : Text) (finished : Finished)
        → id ≡ container_id_of task
        → Ensures Made
            (do
              docker (remove_container env.sdk id)
              workspace_volume ← gets (λ (p : Progress). p.workspace_volume)
              docker (remove_host_workspace env workspace_volume)
              pure finished)
            (λ _ p. Clean p.docker_manager)
            Ready
    after_removal id finished e =
        Ensures-bind Made (λ _ p. Made p × Unmade p.docker_manager) _ Ready _ _
          (docker-Made_only Unmade _
            (λ m. rw e (remove_container-Absent env.sdk (container_id_of task) removes m)))
          (λ _.
            Ensures-bind _
              (λ ws p. Made p × ((ws ≡ some (workspace_for env task)) × Unmade p.docker_manager)) _
              Ready _ _ (Ensures-gets _ _ _ (λ p h. (h.0, (h.0.0, h.1))))
              (λ ws.
                Ensures-bind _ (λ _ p. Made p × Clean p.docker_manager) _ Ready _ _
                  (docker-Made (λ m. (ws ≡ some (workspace_for env task)) × Unmade m) Clean _
                    (λ m h. host-Clean ws h.0 m h.1))
                  (λ _. Ensures-pure _ _ _ (λ p h. h.1))))

    -- Up to the removal, what fails leaves the handlers with all that they need.
    try_in_docker-Clean :
        Ensures
          (λ p. Unmade p.docker_manager)
          (try_in_docker env task)
          (λ _ p. Clean p.docker_manager)
          Ready
    unfolding try_in_docker
    try_in_docker-Clean =
        Ensures-bind _ (λ id p. (id ≡ container_id_of task) × Made p) _ Ready _ _
          (Ensures-weaken _ _ _ Ready _ (λ id p h. (h.0, (h.1, h.2))) (λ p h. (h.0, inr h.1))
            set_up-Made)
          (λ id. Ensures-fact _ _ _ _ (λ e.
            Ensures-bind _ (λ _ p. Made p × Unit {0}) _ Ready _ _
              (docker-Made_only (λ _. Unit {0}) _ (λ m. tt))
              (λ finished. record { at = λ p h. (after_removal id finished e).at p h.0 })))

    -- The container is gone, whether it was created or not.
    either-Unmade :
        (b : Bool) (m after : DockerManager)
        → (b ≡ true) ⊎ Unmade m
        → Unmade after
        → Unmade (if b then after else m)
    either-Unmade true m after h k = k
    either-Unmade false m after (inl e) k = absurd (cc)
    either-Unmade false m after (inr h) k = h

    clean_up_timeout-Clean : (p : Progress) → Ready p → Clean (clean_up_timeout env task p)
    unfolding clean_up_timeout
    clean_up_timeout-Clean p h = host-Clean p.workspace_volume h.0 _ (
        either-Unmade p.created_container _ _ h.1
          (remove_container-Absent env.sdk (container_id_of task) removes _))

    clean_up_exception-Clean : (p : Progress) → Ready p → Clean (clean_up_exception env task p)
    unfolding clean_up_exception
    clean_up_exception-Clean p h = host-Clean p.workspace_volume h.0 _ (
        either-Unmade p.created_container _ _ h.1
          (remove_container-Absent env.sdk (container_id_of task) removes _))

    conclude-Clean :
        (r : Attempt Finished × Progress) (x : TaskExecutor)
        → Post (λ _ p. Clean p.docker_manager) Ready r
        → Clean (conclude env task r x).1.docker_manager
    unfolding conclude parse_result give_up
    conclude-Clean (returned f, p) x h = ground (arith, h)
    conclude-Clean (raised timed_out, p) x h = clean_up_timeout-Clean p h
    conclude-Clean (raised (failure message), p) x h = clean_up_exception-Clean p h

-- Whatever fails on the way, an execution leaves neither the task's container nor its workspace,
-- where Docker removes that container, the directory can be removed, and no container had the
-- task's name before.
pub execute_in_docker-Clean :
    (env : Environment) (task : Task) (x : TaskExecutor)
    → env.sdk.remove (container_id_of task) ≡ none
    → env.sdk.rmtree (workspace_for env task) ≡ true
    → lookup (container_id_of task) x.docker_manager.containers ≡ none
    → Clean env task (execute_in_docker env task x).1.docker_manager
unfolding execute_in_docker
execute_in_docker-Clean env task x removes empties absent =
    conclude-Clean env task removes empties _ x
      ((try_in_docker-Clean env task removes empties).at _ absent)
