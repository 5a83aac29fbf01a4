-- ===== src/Websocket.antt =====
-- coordinator/websocket.py: the handler of a worker's connection.
mod Hello
mod Messages
mod Cleanup
unfoldable pub use Hello.*
unfoldable pub use Messages.*
unfoldable pub use Cleanup.*
