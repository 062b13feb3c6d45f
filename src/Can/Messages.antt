-- ===== src/Can/Messages.antt =====
-- src/odrive_base/include/can_simple_messages.hpp: the message structs, by subject.
mod Status
mod Motion
mod Limits
mod Telemetry
pub use Status.*
pub use Motion.*
pub use Limits.*
pub use Telemetry.*
