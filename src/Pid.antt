-- ===== src/Pid.antt =====
-- src/odrive_velocity_pid/include/odrive_velocity_pid/pid_controller.hpp: the generic controller.
mod Defs
pub mod Limits
pub mod History
pub mod Tests
unfoldable pub use Defs.*
