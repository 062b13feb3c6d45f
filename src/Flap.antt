-- ===== src/Flap.antt =====
-- src/chrono_flap_sim/src/chrono_flap_node.cpp: the flap simulation's node.
mod Defs
mod Store
mod Validation
pub mod State
mod Apply
mod Construct
pub mod Simulate
pub mod Node
pub mod History
pub mod Load
pub mod Tuning
pub mod Changes
pub mod Reach
pub mod Clips
pub mod StoreLimit
mod Spares
mod Held
mod ShadowStore
pub mod ShadowMembers
mod Feedback
pub mod Stale
pub mod ShadowLimit
pub mod ShadowTorque
pub mod Setup
pub mod Tests
pub mod SimTests
pub mod ShadowTests
pub mod StaleTests
unfoldable pub use Defs.*
