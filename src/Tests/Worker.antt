-- ===== src/Tests/Worker.antt =====
-- worker/: the theorems on concrete tasks.
use the_grid_x.Base.{
  suc, ◌≤◌, pos, ◌≡◌, refl, ◌⊎◌, true, false, none, some, List, [], ◌∷◌, length, All, Text, text,
  text_eq, lookup, arith,
}
use the_grid_x.Worker.{
  Task, queued, running, urgent, TaskQueue, new_queue, with_status, enqueue, dequeue, cancel_task,
  find_task, TaskDistributor, find_best_worker, Sdk, present, returned, failure, Environment,
  TaskExecutor, new_executor, new_manager, execute_in_docker, schedule_tasks,
}
use the_grid_x.Worker.Valid.{
  Operation, AllNew, IsApart, IsValid, enqueued, dequeued, withdrawn, run, run-IsValid,
}
use the_grid_x.Worker.Valid.Apart.{places}
use the_grid_x.Worker.Best.{Best, find_best_worker-Best}
use the_grid_x.Worker.Lanes.{lanes, put, pulled, started, next, enqueue-lanes, dequeue-lanes}
use the_grid_x.Worker.Executor.Leftovers.{Clean, execute_in_docker-Clean}
use the_grid_x.Worker.Executor.Secure.{AllSecure, execute_all, execute_all-AllSecure}
use the_grid_x.Worker.Executor.Concurrency.{schedule_tasks-bounds}
use the_grid_x.Worker.Adapter.{
  AssignedJob, task_of, handle_assign_job, JobResult, poll, monitor_and_send,
}
use the_grid_x.Worker.Adapter.Reports.{Sent, execute_in_docker-Sent}
use the_grid_x.Worker.Adapter.Cancelled.{
  Unknown, seen, cancel_task-unreported, handle_assign_job-unreported,
}

abbrev hello : AssignedJob
hello = record {
  job_id = text "j1";
  script = text "print(1)";
  kind = text "python";
  timeout_s = some 30;
}

abbrev first : Task
first = with_status running (task_of hello)

abbrev urgent_task : Task
urgent_task = record first { task_id = text "j2"; priority = urgent }

-- One task waits, and one runs.
abbrev busy : TaskQueue
busy = record (new_queue 1) {
  queue = with_status queued urgent_task ∷ [];
  active_tasks = (text "j1", first) ∷ [];
}

-- Docker answers each call, and the container ends with the code 0.
abbrev pub works_sdk : Sdk
works_sdk = record {
  get_image = λ i. present;
  pull_image = λ i. none;
  create = λ c. none;
  start = λ c. none;
  stop = λ c. none;
  remove = λ c. none;
  wait = λ c. returned (pos 0);
  expires = λ c. false;
  logs = λ c. returned (text "1");
  stats = λ c. returned (record {
    cpu_total = none;
    precpu_total = none;
    system_cpu = none;
    pre_system_cpu = none;
    memory_usage = some 1;
    memory_limit = some 2;
  });
  makedirs = λ p. none;
  write = λ p. none;
  rmtree = λ p. true;
}

abbrev pub env : Environment
env = record {
  sdk = works_sdk;
  tempdir = text "/tmp";
  decimal = λ z. text "1";
  fresh_id = text "f1";
  fresh = text "f2";
  duration_seconds = 25000;
}

abbrev executor : TaskExecutor
executor = new_executor (new_manager true) busy

-- The container cannot be created.
abbrev broken : Environment
broken = record env { sdk = record works_sdk { create = λ c. some (failure (text "no space")) } }

abbrev operations : List Operation
operations = enqueued (task_of hello) ∷ dequeued ∷ withdrawn (text "j1") ∷ []

operations-AllNew : AllNew operations (new_queue 2)
unfolding places lookup
operations-AllNew = (refl, (tt, (tt, tt)))

run-IsValid_example :
    IsValid (run operations (new_queue 2)) × IsApart (run operations (new_queue 2))
run-IsValid_example = run-IsValid 2 operations operations-AllNew

abbrev two_workers : TaskDistributor Text
two_workers = record {
  workers = (text "w1", []) ∷ (text "w2", []) ∷ [];
  worker_capacities = (text "w1", pos 1) ∷ (text "w2", pos 3) ∷ [];
}

find_best_worker-Best_example :
    Best two_workers.worker_capacities none (pos 0) (find_best_worker two_workers)
find_best_worker-Best_example = find_best_worker-Best two_workers

enqueue-lanes_example :
    ((busy.max_queue_size ≤ length busy.queue) × (enqueue first busy ≡ (false, busy)))
    ⊎ ((suc (length busy.queue) ≤ busy.max_queue_size)
        × ((enqueue first busy).0 ≡ true)
        × (lanes (enqueue first busy).1.queue ≡ put (with_status queued first) (lanes busy.queue)))
enqueue-lanes_example = enqueue-lanes first busy

dequeue-lanes_example : pulled (dequeue busy) ≡ started (next (lanes busy.queue))
dequeue-lanes_example = dequeue-lanes busy (tt, tt)

execute_in_docker-Clean_example :
    Clean broken first (execute_in_docker broken first executor).1.docker_manager
unfolding lookup
execute_in_docker-Clean_example = execute_in_docker-Clean broken first executor refl refl refl

execute_all-AllSecure_example :
    AllSecure
      (execute_all
        ((env, first) ∷ (broken, urgent_task) ∷ [])
        (new_executor (new_manager true) busy)).docker_manager
execute_all-AllSecure_example =
    execute_all-AllSecure true busy ((env, first) ∷ (broken, urgent_task) ∷ [])

schedule_tasks-bounds_example :
    (length (schedule_tasks 5 executor).1.execution_tasks ≤ 5)
    × (((schedule_tasks 5 executor).1.task_queue.queue ≡ [])
        ⊎ (5 ≤ length (schedule_tasks 5 executor).1.execution_tasks))
schedule_tasks-bounds_example = schedule_tasks-bounds 5 executor (omega arith)

is_active : lookup first.task_id busy.active_tasks ≡ some first
unfolding lookup text_eq task_of
is_active = refl

is_absent : find_task first.task_id busy.queue ≡ none
unfolding find_task text_eq task_of
is_absent = refl

execute_in_docker-Sent_example :
    (r : JobResult) × (poll first.task_id (execute_in_docker broken first executor).1.task_queue
      ≡ some r)
    × Sent first.task_id (execute_in_docker broken first executor).0.status 25000 r
execute_in_docker-Sent_example =
    execute_in_docker-Sent broken first first executor is_active is_absent

others : All (λ t. text_eq t.task_id (text "j1") ≡ false) busy.queue
unfolding text_eq
others = (refl, tt)

active_j1 : lookup (text "j1") busy.active_tasks ≡ some first
unfolding lookup text_eq
active_j1 = refl

cancel_task-unreported_example :
    ((cancel_task (text "j1") busy).0 ≡ true)
    × (monitor_and_send
          (text "j1")
          (seen (text "j1") (dequeued ∷ []) (cancel_task (text "j1") busy).1)
        ≡ none)
unfolding lookup
cancel_task-unreported_example =
    cancel_task-unreported (text "j1") first (dequeued ∷ []) busy others active_j1 refl (tt, tt)

-- The queue is full.
abbrev full : TaskQueue
full = record busy { active_tasks = [] }

full-Unknown : Unknown hello.job_id full
unfolding text_eq lookup
full-Unknown = record { waiting = (refl, tt); active = refl; ended = refl }

handle_assign_job-unreported_example :
    monitor_and_send hello.job_id (seen hello.job_id (dequeued ∷ []) (handle_assign_job hello full))
    ≡ none
handle_assign_job-unreported_example =
    handle_assign_job-unreported hello (dequeued ∷ []) full (omega arith) full-Unknown (tt, tt)
