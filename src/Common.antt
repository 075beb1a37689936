-- ===== src/Common.antt =====
-- src/common: what the flight software and the simulation share.
pub mod StateHistory
pub mod DataLogger
