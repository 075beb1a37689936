-- ===== src/Fdir.antt =====
-- src/fsw/fdir: fault detection, isolation and recovery.
pub mod Health
pub mod Monitor
pub mod Wheels
pub mod Manager
pub mod Actions
mod Tests
