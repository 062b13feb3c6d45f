-- ===== src/Velocity.antt =====
-- src/odrive_velocity_pid/src/velocity_pid_node.cpp: the cascaded position and velocity controller.
mod State
mod Table
mod Reconfigure
mod Joint
mod Loops
mod Node
pub mod Torque
pub mod Divider
pub mod Index
pub mod Tuning
pub mod Startup
pub mod Tests
unfoldable pub use State.*
unfoldable pub use Table.*
unfoldable pub use Reconfigure.*
unfoldable pub use Joint.*
unfoldable pub use Loops.*
unfoldable pub use Node.*
