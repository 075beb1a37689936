-- ===== src/Gnc.antt =====
-- src/fsw/gnc: guidance, navigation and control.
pub mod Interfaces
pub mod ControlAllocator
pub mod Guidance
pub mod Pid
pub mod WheelDesaturation
pub mod AttitudeController
pub mod Bdot
pub mod Factory
pub mod Mekf
pub mod Lqr
