-- ===== src/Worker.antt =====
-- worker/: what a worker does with the jobs that it is given.
pub mod Exec
mod Tasks
mod Queue
mod Distributor
pub mod Docker
pub mod Executor
pub mod Adapter
pub mod Process
pub mod Valid
pub mod Best
pub mod Lanes
unfoldable pub use Tasks.*
unfoldable pub use Queue.*
unfoldable pub use Distributor.*
unfoldable pub use Executor.*
unfoldable pub use Docker.*
unfoldable pub use Exec.*
