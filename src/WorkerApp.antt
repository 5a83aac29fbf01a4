-- ===== src/WorkerApp.antt =====
-- worker_app/: what the desktop application keeps.
mod History
pub mod Kept
unfoldable pub use History.*
