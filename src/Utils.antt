-- ===== src/Utils.antt =====
-- common/utils.py: validation and sanitisation of what clients send.
mod Validation
mod Sanitize
pub mod Patterns
pub mod Accepted
pub mod Cleaned
unfoldable pub use Validation.*
unfoldable pub use Sanitize.*
