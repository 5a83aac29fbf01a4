-- ===== src/Scheduler.antt =====
-- coordinator/scheduler.py: the queue of job ids, dispatch, results, and the watchdog.
mod Dispatch
mod Results
mod Watchdog
unfoldable pub use Dispatch.*
unfoldable pub use Results.*
unfoldable pub use Watchdog.*
