-- ===== src/Sim.antt =====
-- src/sim: the simulated dynamics, sensors and actuators.
pub mod ReactionWheel
pub mod Torquer
pub mod Integrator
pub mod RigidBody
pub mod Orbit
pub mod Noise
pub mod Gyro
pub mod Magnetometer
pub mod StarTracker
pub mod Simulation
pub mod Quiet
pub mod Loop
mod Tests
