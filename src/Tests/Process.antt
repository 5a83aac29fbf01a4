-- ===== src/Tests/Process.antt =====
-- worker/main.py: the theorems on concrete inputs.
use the_grid_x.Base.{pos, ◌≡◌, refl, true, false, some, List, [], ◌∷◌, Text, text, arith}
use the_grid_x.Scheduler.{job_msg}
use the_grid_x.Worker.{
  Task, running, new_queue, with_status, dequeue, TaskExecutor, new_executor, new_manager,
  execute_in_docker, with_status,
}
use the_grid_x.Worker.Executor.Works.{Works}
use the_grid_x.Worker.Adapter.{poll}
use the_grid_x.Worker.Process.{
  LogEntry, new_logger, get_recent, no_file, load_or_create_identity, new_identity, new_connection,
  Round, unreachable, reached, accepted, told_to_stop, connect, connect_all, HybridWorker,
  receive_message, refused, failed_early,
}
use the_grid_x.Worker.Process.Recent.{suffix, add_all, get_recent-suffix}
use the_grid_x.Worker.Process.Persisted.{load_or_create_identity-same}
use the_grid_x.Worker.Process.Backoff.{IsShort, IsPatient, connect-bounds, told_to_stop-connected}
use the_grid_x.Worker.Process.Assigned.{task_for, sent_of, receive_message-sent}
use the_grid_x.Tests.Fixtures.{job_a, waiting}
use the_grid_x.Tests.Worker.{env}

abbrev noted : Text → LogEntry
noted event_type = record { timestamp = text "12:00"; event_type = event_type; details = [] }

abbrev three : List LogEntry
three = noted (text "a") ∷ noted (text "b") ∷ noted (text "c") ∷ []

get_recent-suffix_example : get_recent 1 (add_all three (new_logger 2)) ≡ suffix 1 three
get_recent-suffix_example = get_recent-suffix 2 1 three (omega arith) (omega arith)

load_or_create_identity-same_example :
    let first =
      load_or_create_identity
        (λ s. s)
        1
        (text "w1")
        no_file
        (new_identity (text "al") (text "p")) in
    let second =
      load_or_create_identity
        (λ s. s)
        2
        (text "w2")
        first.1
        (new_identity (text "al") (text "q")) in
    (second.0.worker_id ≡ first.0.worker_id)
    × (first.0.auth_token ≡ some (text "al:p"))
    × (second.0.auth_token ≡ some (text "al:q"))
load_or_create_identity-same_example =
    load_or_create_identity-same (λ s. s) 1 2 (text "w1") (text "w2") no_file (text "al") (text "p")
      (text "q")

abbrev outage : List Round
outage = unreachable ∷ unreachable ∷ reached (failed_early (refused [])) ∷ unreachable ∷ []

connect-bounds_example :
    let c = connect_all (text "12:00") outage new_connection in
    IsShort (text "12:00") (connect (text "12:00") unreachable c).0
    × IsPatient (connect (text "12:00") unreachable c).1.reconnect_delay
connect-bounds_example = connect-bounds (text "12:00") outage unreachable

told_to_stop-connected_example :
    let after =
      connect_all
        (text "12:00")
        (reached (accepted (told_to_stop (text "bye"))) ∷ unreachable ∷ [])
        new_connection in
    (after.is_connected ≡ true) × (after.terminated ≡ true)
told_to_stop-connected_example =
    told_to_stop-connected (text "12:00") (text "bye") (unreachable ∷ []) new_connection refl refl

abbrev idle_worker : HybridWorker
idle_worker = record {
  connection = new_connection;
  task_queue = new_queue 1000;
  started = [];
  has_callback = false;
  notices = [];
}

abbrev heard : HybridWorker
heard = (receive_message (text "12:00") (text "bye") (job_msg job_a waiting) idle_worker).1

abbrev ran : Task
ran = with_status running (task_for job_a waiting)

abbrev pulled_executor : TaskExecutor
pulled_executor = new_executor (new_manager true) (dequeue heard.task_queue).1

works : Works env.sdk ran (pos 0) (text "1")
works = record {
  image = λ i. refl;
  create = λ c. refl;
  makedirs = λ p. refl;
  write = λ p. refl;
  prompt = refl;
  wait = refl;
  told = refl;
  stats = (_, refl);
}

receive_message-sent_example :
    (heard.started ≡ job_a ∷ [])
    × ((dequeue heard.task_queue).0 ≡ some ran)
    × (poll job_a (execute_in_docker env ran pulled_executor).1.task_queue
        ≡ some (sent_of env job_a (pos 0) (text "1")))
receive_message-sent_example =
    receive_message-sent (text "12:00") (text "bye") env job_a waiting idle_worker pulled_executor
      (pos 0) (text "1") refl (omega arith) refl refl works
