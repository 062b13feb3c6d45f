-- ===== src/Enums.antt =====
-- src/odrive_base/include/odrive_enums.h: the enumerations of the ODrive, and what tells their
-- enumerators apart.
mod Defs
pub mod Axis
pub mod Device
pub mod Encoders
pub mod Errors
pub mod Flags
pub mod Tests
unfoldable pub use Defs.*
