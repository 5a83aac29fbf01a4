-- ===== src/Schemas.antt =====
-- common/schemas.py: the records that the platform's parts exchange, as dicts.
mod Values
mod Jobs
mod Workers
mod Accounts
mod Tasks
mod Responses
pub mod RoundTrip
pub mod Submission
unfoldable pub use Values.*
unfoldable pub use Jobs.*
unfoldable pub use Workers.*
unfoldable pub use Accounts.*
unfoldable pub use Tasks.*
unfoldable pub use Responses.*
