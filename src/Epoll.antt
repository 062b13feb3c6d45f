-- ===== src/Epoll.antt =====
-- src/odrive_base/src/epoll_event_loop.cpp and its header: the event loop and the event on it.
mod Defs
mod Event
pub mod Registry
pub mod Safety
pub mod Counting
pub mod Tests
unfoldable pub use Defs.*
unfoldable pub use Event.*
