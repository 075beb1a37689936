-- ===== src/Lib.antt =====
-- The flight software of a CubeSat: src/fsw and src/common, with the simulation and the ground
-- station of src/sim, and the tools of src/opt and src/test that fly it in the simulation.
--
-- Parts and files:
-- * Core.ModeManager models src/fsw/core/ModeManager.cpp: the mission mode, the time in it,
--   automatic transitions by angular rate, manual commands and forced changes (`update`,
--   `command_mode`, `force_mode_change`, `reset`).
-- * Core.SpscQueue models src/fsw/core/SPSCQueue.hpp, the ring between one producer and one
--   consumer, as whole calls and (Threads) as the interleaved steps of the two threads, each step
--   one access to the shared indices or cells.
-- * Core.TaskScheduler models src/fsw/core/TaskScheduler.cpp: `step` over the due tasks, and
--   `run`, whose loop is on fuel: one unit is one cycle, and a run needs as many as time steps
--   reach its duration.
-- * Core.DataStore and Core.CommandManager model src/fsw/core/DataStore.hpp, CommandManager.cpp
--   and the `execute` of src/fsw/core/commands: queued commands publish to the store, whose
--   subscribers are functions on a state of their own; the attitude controller is one.
-- * Fdir models src/fsw/fdir. Fdir.Monitor is SensorHealthMonitor.hpp, one sensor's detection of
--   stuck, out-of-range and jumping values; Fdir.Wheels is the wheel loop of `updateWheels`;
--   Fdir.Manager is registration and the aggregate health of FDIRManager.cpp; Fdir.Actions is its
--   recovery actions. The manager reports to the mode manager and resets the filter through the
--   estimator interface.
-- * Telemetry models the packets: Ccsds (CCSDS.hpp, CommandProtocol.hpp), Bytes (big-endian
--   doubles), Command (CommandParameter.hpp, src/fsw/core/CommandParser.cpp), Service
--   (TelemetryService.cpp), Manager (TelemetryManager.cpp, which reads the data store) and
--   GroundStation (src/sim/GroundStation.cpp). Uplink, Downlink and Separation join sender and
--   receiver.
-- * FlightSoftware models src/fsw/FlightSoftware.cpp, the control cycle that calls all the parts:
--   State is the object and its constructor, Step the cycle (`step`) with its commands, estimate
--   and wheel monitors, Control the choice between detumbling and pointing. Cycle takes a step
--   apart; Wheels, Commands, Ready, Runs and Overread follow the wheel commands through it,
--   Recorded the queue and the history, Uplinked the commands from the ground.
--   Construct is its constructor over Gnc.Factory, which models
--   src/fsw/gnc/GNCComponentFactory.hpp: the entries that it looks up in the JSON configuration are
--   records.
-- * Common.StateHistory models src/common/StateHistory.hpp, the ring of the newest states.
-- * Gnc models src/fsw/gnc. Interfaces holds the records that cross between the parts, and the
--   abstract estimator and controller of src/fsw/gnc/interfaces; Pid, AttitudeController, Bdot,
--   ControlAllocator and WheelDesaturation are the control laws of src/fsw/gnc/control; Guidance
--   is src/fsw/gnc/guidance, Mekf the filter of src/fsw/gnc/ekf, and Lqr with Lqr.Lqg the linear
--   controllers. The attitude controller steers three Pid objects; it and Bdot fill the abstract
--   controller.
-- * Sim models src/sim: ReactionWheel (SimRW.cpp) and Torquer (SimTorquer.cpp) are the actuators,
--   Integrator, RigidBody and Orbit the dynamics, Gyro, Magnetometer and StarTracker the sensors,
--   whose random draws are Noise. Simulation joins them, and Loop is the closed loop with the
--   flight software, which it knows by the record `Flight`.
-- * Opt models src/opt: Optimizer is the genetic search of GeneticOptimizer.cpp, over a sort and an
--   evaluator, Fitness is FitnessEvaluator.hpp, and Flown fills `Flight` with FlightSoftware.Step and follows
--   the flight software that an evaluation constructs (Flown.Idle).
-- * MonteCarlo models src/test/MonteCarloRunner.cpp, over the same closed loop.
-- * Common.DataLogger models src/common/DataLogger.hpp, the table of comma-separated lines.
-- * Prelude, Double, Eigen, Linear and Fixed carry what the others share.
--
-- Conventions. A `double` is a parameter type with the record `Double` of its operations, since
-- IEEE arithmetic is the platform's; `Stored` says that its eight bytes determine it, `IsOrdered`
-- how numbers compare, and `HasNan` how a NaN spreads. Eigen's operations on vectors and
-- quaternions are the record `Eigen`, those on matrices `Matrices`. A concrete type of numbers,
-- `Fixed`, is there for tests alone. A method returns the new state of its object; a pointer that
-- may be null is an `Option`; a read outside a vector, undefined in C++, is `none`. Counters of
-- type `int` are unbounded numbers, `uint16_t` counters wrap. Every loop is a recursion on its
-- list or its count, but for those over time (`run` of the scheduler, and the flights of Opt.Fitness
-- and MonteCarlo), which are on fuel: one unit is one step, and a run that the clock ends after k steps
-- needs k + 1. Random numbers come from records of draws (`Noise`, `Random`, `Draws`) over the state of
-- a generator, which is passed on from draw to draw. `std::sort` is a parameter that rearranges by cost.
--
-- Not modelled: logging and fault messages, wall-clock time, and the JSON library with the
-- reading of configuration files.
pub mod Opt
pub mod Prelude
pub mod Double
pub mod Eigen
pub mod Linear
pub mod Fixed
pub mod Common
pub mod Core
pub mod Gnc
pub mod Fdir
pub mod Telemetry
pub mod FlightSoftware
pub mod Sim
pub mod MonteCarlo
