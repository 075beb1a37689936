-- ===== src/FlightSoftware.antt =====
-- src/fsw/FlightSoftware.cpp: the composition of the parts.
pub mod State
pub mod Construct
pub mod Control
pub mod Step
pub mod Cycle
pub mod Wheels
pub mod Commands
pub mod Ready
pub mod Runs
pub mod Overread
pub mod Recorded
pub mod Uplinked
pub mod Tests
pub mod RunTests
