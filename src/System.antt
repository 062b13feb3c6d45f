-- ===== src/System.antt =====
-- The torque path over several programs: the mixer's commands on their topic, the controller that
-- writes them into the hardware interface, and the frames to the drive.
mod Relation
pub mod Drive
pub mod Network
pub mod Steady
pub mod Trace
pub mod Origin
pub mod Reachable
pub mod StackTests
pub mod Tests
unfoldable pub use Relation.*
