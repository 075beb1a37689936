-- ===== src/Telemetry.antt =====
-- The packets between spacecraft and ground: src/fsw/telemetry, src/fsw/core/CommandParser.cpp and
-- src/sim/GroundStation.cpp.
pub mod Ccsds
pub mod Bytes
pub mod Command
pub mod Service
pub mod GroundStation
pub mod Uplink
pub mod Downlink
pub mod Separation
pub mod Manager
mod Tests
