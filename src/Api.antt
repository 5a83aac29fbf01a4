-- ===== src/Api.antt =====
-- coordinator/main.py: the HTTP endpoints.
mod Request
mod Submit
mod Queries
mod Admin
unfoldable pub use Request.*
unfoldable pub use Submit.*
unfoldable pub use Queries.*
unfoldable pub use Admin.*
