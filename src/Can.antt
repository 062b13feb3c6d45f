-- ===== src/Can.antt =====
-- The CAN side of odrive_base: the signal codec of can_helpers.hpp and the messages of
-- can_simple_messages.hpp.
mod Signal
mod Layout
pub mod Float32
pub mod Bits
pub mod Codec
pub mod Sequence
pub mod Messages
pub mod Payload
pub mod Wire
pub mod Transfer
pub mod Frames
pub mod Tests
unfoldable pub use Signal.*
unfoldable pub use Layout.*
