-- ===== src/Worker/Process.antt =====
-- worker/main.py: the worker process around the task queue.
mod Activity
mod Identity
mod Connecting
mod Messages
pub mod Recent
pub mod Persisted
pub mod Assigned
pub mod Backoff
unfoldable pub use Activity.*
unfoldable pub use Identity.*
unfoldable pub use Connecting.*
unfoldable pub use Messages.*
