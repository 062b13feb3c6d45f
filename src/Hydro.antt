-- ===== src/Hydro.antt =====
-- src/chrono_flap_sim/src/sea_stack_hydro.cpp and its header: the adapter to SEA-Stack.
mod Defs
pub mod Clip
pub mod Tests
unfoldable pub use Defs.*
