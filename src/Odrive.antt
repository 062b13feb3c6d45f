-- ===== src/Odrive.antt =====
-- src/odrive_ros2_control/src/odrive_hardware_interface.cpp: the hardware interface to the ODrives.
mod Motor
mod Defs
mod Lifecycle
pub mod Silence
pub mod Modes
pub mod Estimates
pub mod Tests
unfoldable pub use Motor.*
unfoldable pub use Lifecycle.*
unfoldable pub use Defs.*
