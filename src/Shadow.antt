-- ===== src/Shadow.antt =====
-- src/chrono_flap_sim/include/chrono_flap_sim/shadow_pid_controller.hpp: the simulation's copy of
-- the controller.
mod Defs
pub mod Mirror
pub mod Replay
pub mod Limits
pub mod Tests
unfoldable pub use Defs.*
