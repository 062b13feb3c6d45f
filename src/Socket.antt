-- ===== src/Socket.antt =====
-- src/odrive_base/src/socket_can.cpp and its header: the CAN socket on the event loop.
mod Defs
pub mod Lifecycle
pub mod Drain
pub mod Tests
unfoldable pub use Defs.*
