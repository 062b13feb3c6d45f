-- ===== src/Mixer.antt =====
-- src/hil_torque_mixer/src/hil_torque_mixer_node.cpp: the torque mixer and its watchdogs.
mod Defs
pub mod Clip
pub mod Watchdog
pub mod Replay
pub mod History
pub mod Tests
unfoldable pub use Defs.*
