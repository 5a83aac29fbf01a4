-- ===== src/Worker/Executor.antt =====
-- worker/task_executor.py: `TaskExecutor`.
mod Code
mod InDocker
mod Execute
pub mod Secure
pub mod Concurrency
pub mod Works
pub mod Ended
pub mod Leftovers
unfoldable pub use Code.*
unfoldable pub use InDocker.*
unfoldable pub use Execute.*
