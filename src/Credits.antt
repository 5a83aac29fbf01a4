-- ===== src/Credits.antt =====
-- coordinator/credit_manager.py: balances, and the cost of a job by the time that it took.
mod Pricing
mod Balance
mod Settle
pub mod Bounds
pub mod Accounts
pub mod Totals
pub mod Settlement
pub mod Replay
unfoldable pub use Pricing.*
unfoldable pub use Balance.*
unfoldable pub use Settle.*
