-- ===== src/Lib.antt =====
-- Grid-X: the coordinator that takes jobs over HTTP, hands them to workers over websockets, and
-- keeps the users' credits; and the worker that runs the jobs in containers.
--
-- The parts, and how they act on one another:
--   Utils      common/utils.py: `validate_uuid`, `validate_user_id`, `validate_password` and
--              `validate_code_length` (Validation), `sanitize_string`, `sanitize_user_id` and the
--              helpers on dicts (Sanitize). Patterns, Accepted and Cleaned hold the theorems.
--   Database   coordinator/database.py. Schema has the rows and `Db`, the four tables as dicts under
--              their primary keys; Jobs, Workers, Assignment, Auth and Listing have the operations
--              under their names in the code, Laws and Listed the theorems on the assignment of a
--              job and on the listings.
--   Credits    coordinator/credit_manager.py: Pricing (the costs, the reserve, the reward), Balance
--              (`ensure_user`, `get_balance`, `deduct`, `credit`) and Settle (`settle_job`); the
--              other files prove what they do to the balances.
--   State      what a running coordinator holds: the database, `workers_ws` of
--              coordinator/workers.py, `job_queue` of coordinator/scheduler.py, and a log of the
--              messages that were sent.
--   Registry   coordinator/workers.py: the items of `workers_ws` (Entries), `get_idle_worker_id`
--              (Selection, with its theorems in Choice and Malformed), `disconnect_worker` and
--              `broadcast_to_all_workers` (Connection).
--   Scheduler  coordinator/scheduler.py: `dispatch` (Dispatch), `on_job_started` and
--              `on_job_result` (Results), one check of `watchdog_loop` (Watchdog).
--   Websocket  coordinator/websocket.py: `handle_worker` as a function on one message. Hello has the
--              branch for "hello", Messages the others, Cleanup what follows the loop.
--   Api        coordinator/main.py: `submit_job` (Request, Submit), the other endpoints (Queries), and
--              those for administrators (Admin). The names of the status codes are
--              common/constants.py's.
--   System     the coordinator as a whole. Stable says what a property of the database must survive
--              to survive each handler, Handlers and Endpoints carry it through them, Funds and
--              Tokens are two such properties, and Steps has the step relation and the states that
--              can be reached. Pending, Proper, Dispatching and Requeue follow the jobs that wait;
--              Sound, Waiting and Requests carry the queue and the registry through every handler
--              to Orderly. Untouched says what leaves the workers' table alone.
--              Charging and Access join the endpoints with the credits and the connections.
--   Worker     worker/. task_queue.py: the tasks (Tasks), `TaskQueue` (Queue) and `TaskDistributor`
--              (Distributor); Valid, Lanes and Best hold the theorems on them. docker_manager.py:
--              Docker, with what the SDK answers (Answers), the containers' configuration (Config)
--              and the methods (Manager). task_executor.py: Executor, with the script and the image
--              (Code), the `try` block of `_execute_in_docker` and its handlers (InDocker) and the
--              methods around it (Execute). ws_worker_adapter.py: Adapter. main.py: Process, with
--              `ActivityLogger` (Activity), `WorkerIdentity` (Identity), the connection loop
--              (Connecting) and the message loop (Messages) of `run_worker`; Assigned follows a job
--              from the coordinator's message to the worker's. Exec has the methods that may raise,
--              and the rules by which the other files reason about them.
--   Schemas    common/schemas.py: the records with `to_dict` and `from_dict` (Jobs, Workers, Accounts,
--              Tasks, Responses) over decoded JSON values (Values), and `JobSubmission.validate`
--              (Submission).
--   WorkerApp  worker_app/job_history.py (History, with its theorem in Kept).
--   Base       what the others share; Tests, the theorems at concrete inputs.
--
-- How the code is read:
--   * A string is a list of code points. A time is a count of milliseconds, an amount of credits or
--     of seconds counts ten-thousandths; `round(x, 4)` is rounding half to even on exact products.
--     The errors of floating-point numbers are not modelled.
--   * An operation takes the state and gives the new one. A Python exception is a value: `raise` of a
--     `Result`, an `http_error` of a `Response`, or the outcome `failed` of a message.
--   * One handler runs at a time, from its start to its end: its awaits, on the lock and on sends, are
--     not points at which others run. It reads the clock once (`now`). The interleavings are the sequences
--     of steps in System/Steps; a dispatch that is scheduled for later is a step of its own.
--   * The functions `is_printable` (`str.isprintable`), `to_str` (`str`), `parse_int` (`int` of a string)
--     and `delivers` (whether a send on a websocket succeeds), and fresh ids, are parameters.
--   * A `Task` of the worker's queue is a value, where the code has an object that it changes in place.
--     The two are the same as long as the queue holds the object once (`IsApart` of Worker/Valid), so
--     the calls that are considered there enqueue new objects only.
--   * SQLite's integers have 64 bits: an exit code that does not fit leaves the database as it was.
--   * SQL rows stand in the order of their insertion; `ORDER BY` is a sort that keeps the order of equal
--     rows.
--   * A method of the worker that may raise gives its value or its exception, and beside either the
--     state that it leaves (Worker/Exec). What Docker, the file system, the clock and SHA-256 answer is
--     a parameter; a duration there counts ten-thousandths of a second, a delay of the connection loop
--     128ths. Each method of the task queue holds its lock, so the interleavings are sequences of calls.
--   * The loop of `dispatch` recurs on the queue, of which each round takes the head. The scheduling pass
--     of `start_executor` runs on fuel, one round for each task of the queue and one more, which is
--     enough, since each round but the last takes a task. The loops that go on for ever, the monitor of a
--     job and the connection loop, recur on the list of what their rounds meet. All other loops recur on
--     the list they go through.
--
-- Not modelled: the servers, FastAPI's routing, middleware and rate limit, `admin_overview`, logging
-- and printing; worker/resource_monitor.py (psutil), and what worker/main.py has for the command line
-- and for requests to the coordinator; worker_app/ui (a graphical interface); and what
-- common/utils.py has for formatting, hashing and conversions. Of `start_executor` and
-- `cancel_execution` the scheduling of coroutines is asyncio's: an execution is one step, and a
-- cancelled one is stopped where it waits, without the handlers of `_execute_in_docker`.
pub mod Base
pub mod Utils
pub mod Database
pub mod Credits
pub mod State
pub mod Registry
pub mod Scheduler
pub mod Websocket
pub mod Api
pub mod System
pub mod Worker
pub mod Schemas
pub mod WorkerApp
pub mod Tests
