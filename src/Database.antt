-- ===== src/Database.antt =====
-- coordinator/database.py: the SQLite tables and the operations on them.
mod Schema
mod Jobs
mod Workers
mod Assignment
mod Auth
mod Listing
pub mod Laws
pub mod Listed
unfoldable pub use Schema.*
unfoldable pub use Jobs.*
unfoldable pub use Workers.*
unfoldable pub use Assignment.*
unfoldable pub use Auth.*
unfoldable pub use Listing.*
