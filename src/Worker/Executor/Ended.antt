-- ===== src/Worker/Executor/Ended.antt =====
-- worker/task_executor.py: how an execution ends for the task queue.
use the_grid_x.Base.{
  ◌≡◌, refl, none, some, Text, text_eq_refl, lookup, lookup-insert, lookup-erase, ◌⊎◌, inl, inr,
  Bool-cases,
}
use the_grid_x.Worker.Tasks.{Task, completed, failed}
use the_grid_x.Worker.Queue.{
  TaskQueue, finish, completed_task, mark_completed, failed_task, mark_failed,
}
use the_grid_x.Worker.Exec.{timed_out, failure, Attempt, returned, raised}
use the_grid_x.Worker.Docker.{DockerManager}
use the_grid_x.Worker.Executor.InDocker.{
  Environment, Progress, Finished, clean_up_timeout, clean_up_exception,
}
use the_grid_x.Worker.Executor.Execute.{
  TaskExecutor, Report, give_up, parse_result, conclude, execute_in_docker, is_zero_code, timed,
  succeeded_with, exit_message,
}

-- The task is no longer active, and stands with its end among the completed ones; the queue is as
-- it was.
pub record EndedAs (task_id : Text) (before after : TaskQueue) (t : Task) : Type 0 where
  pub active : lookup task_id after.active_tasks ≡ none
  pub ended : lookup task_id after.completed_tasks ≡ some t
  pub queue : after.queue ≡ before.queue

pub finish-EndedAs :
    (task_id : Text) (set : Task → Task) (q : TaskQueue) (t : Task)
    → lookup task_id q.active_tasks ≡ some t
    → EndedAs task_id q (finish task_id set q) (set t)
unfolding finish
finish-EndedAs task_id set q t e =
    rw (e, finish)
      (record {
        active = rw (lookup-erase task_id task_id q.active_tasks, text_eq_refl task_id) refl;
        ended =
            rw (lookup-insert task_id task_id (set t) q.completed_tasks, text_eq_refl task_id) refl;
        queue = refl;
      })

-- What the report says agrees with what is kept of the task: its status, and the time it took.
pub record Agrees (env : Environment) (task_id : Text) (q : TaskQueue) (r : Report × TaskExecutor)
    : Type 0 where
  pub kept :
      (t : Task) × EndedAs task_id q r.1.task_queue t
      × (t.status ≡ r.0.status)
      × (t.result
          ≡ some (record {
            output = r.0.output;
            error = none;
            duration_seconds = some env.duration_seconds;
          }))
  pub final : (r.0.status ≡ completed) ⊎ (r.0.status ≡ failed)
  pub duration : r.0.duration_seconds ≡ some env.duration_seconds

module _ (env : Environment) (task before : Task) (x : TaskExecutor)
    (active : lookup task.task_id x.task_queue.active_tasks ≡ some before) where
  give_up-Agrees :
      (error_msg : Text) (m : DockerManager)
      → Agrees env task.task_id x.task_queue (give_up env.duration_seconds task error_msg m x)
  unfolding give_up mark_failed
  give_up-Agrees error_msg m = record {
    kept = (
      failed_task error_msg (some (timed env.duration_seconds)) before,
      finish-EndedAs task.task_id (failed_task error_msg (some (timed env.duration_seconds)))
          x.task_queue before active,
      refl,
      refl,
    );
    final = inr refl;
    duration = refl;
  }

  parse_result-Agrees :
      (f : Finished) (m : DockerManager)
      → Agrees env task.task_id x.task_queue (parse_result env task f m x)
  unfolding parse_result mark_completed mark_failed
  parse_result-Agrees f m = elim (Bool-cases (is_zero_code f.exit_code)) [
    | inl zero ↦ rw zero (record {
      kept = (
        completed_task (some (succeeded_with env.duration_seconds f)) before,
        finish-EndedAs task.task_id (completed_task (some (succeeded_with env.duration_seconds f)))
            x.task_queue before active,
        refl,
        refl,
      );
      final = inl refl;
      duration = refl;
    })
    | inr other ↦ rw other (record {
      kept = (
        failed_task (exit_message env f.exit_code) (some (timed env.duration_seconds)) before,
        finish-EndedAs task.task_id
            (failed_task (exit_message env f.exit_code) (some (timed env.duration_seconds)))
            x.task_queue before active,
        refl,
        refl,
      );
      final = inr refl;
      duration = refl;
    })
  ]

  conclude-Agrees :
      (r : Attempt Finished × Progress)
      → Agrees env task.task_id x.task_queue (conclude env task r x)
  unfolding conclude
  conclude-Agrees (returned f, p) = parse_result-Agrees f p.docker_manager
  conclude-Agrees (raised timed_out, p) = give_up-Agrees _ (clean_up_timeout env task p)
  conclude-Agrees (raised (failure message), p) = give_up-Agrees _ (clean_up_exception env task p)

  -- Whatever Docker answers, an active task that is executed ends: it goes from the active tasks to
  -- the completed ones, completed or failed as the report says, with the time that it took, and with
  -- its output exactly where the report has one.
  pub execute_in_docker-Agrees : Agrees env task.task_id x.task_queue (execute_in_docker env task x)
  unfolding execute_in_docker
  execute_in_docker-Agrees = conclude-Agrees _
