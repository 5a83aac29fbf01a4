-- ===== src/Registry.antt =====
-- coordinator/workers.py: the workers that are connected, and the choice of one for a job.
mod Entries
mod Selection
mod Connection
pub mod Choice
pub mod Malformed
unfoldable pub use Entries.*
unfoldable pub use Selection.*
unfoldable pub use Connection.*
