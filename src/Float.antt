-- ===== src/Float.antt =====
-- The `double` of the C++ sources: a type with the operations that the code uses, and what IEEE 754
-- says of them. The numbers themselves are a parameter of the whole development.
mod Defs
mod Clamp
pub mod Fixed
unfoldable pub use Defs.*
unfoldable pub use Clamp.*
