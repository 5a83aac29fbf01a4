-- ===== src/Worker/Docker.antt =====
-- worker/docker_manager.py: `DockerManager`. What Docker and the file system answer is a parameter
-- (`Sdk`); what the manager has done to them is written down (`calls`).
mod Answers
mod Config
mod Manager
pub mod Secure
pub mod Quiet
pub mod Removed
unfoldable pub use Answers.*
unfoldable pub use Config.*
unfoldable pub use Manager.*
