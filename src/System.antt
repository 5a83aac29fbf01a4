-- ===== src/System.antt =====
-- The coordinator as a whole: the steps that it takes, and what holds after any number of them.
pub mod Pending
pub mod Proper
pub mod Dispatching
pub mod Stable
pub mod Handlers
pub mod Endpoints
pub mod Funds
pub mod Untouched
pub mod Tokens
pub mod Steps
pub mod Charging
pub mod Access
pub mod Requeue
pub mod Sound
pub mod Waiting
pub mod Requests
pub mod Orderly
