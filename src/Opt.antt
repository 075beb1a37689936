-- ===== src/Opt.antt =====
-- src/opt: the genetic search for controller gains, and their cost in a simulated flight.
pub mod Optimizer
pub mod Fitness
pub mod Flown
