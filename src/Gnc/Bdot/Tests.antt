-- ===== src/Gnc/Bdot/Tests.antt =====
-- A run of the detumbling controller on concrete numbers.
use cubesat_fsw_gnc.Prelude.{ℕ, ◌≡◌, refl, List, [], ◌∷◌}
use cubesat_fsw_gnc.Double.{lit}
use cubesat_fsw_gnc.Eigen.{Quaternion, vector_zero}
use cubesat_fsw_gnc.Fixed.{Fixed, fixed_double, fixed_eigen}
use cubesat_fsw_gnc.Gnc.Interfaces.{SensorData, State, GuidanceTarget}
use cubesat_fsw_gnc.Gnc.Bdot.{Bdot, init, reset}
use cubesat_fsw_gnc.Gnc.Bdot.Trace.{Cycle, commands, against_change, AllLong, commands-reset}

abbrev unit : Quaternion Fixed
unit = record { w = lit 1 0; x = lit 0 0; y = lit 0 0; z = lit 0 0 }

-- Sensors in a field along one axis.
abbrev sensors : ℕ → SensorData Fixed
sensors n = record {
  mag_body = record { x = lit n 5; y = lit 0 0; z = lit 0 0 };
  gyro_body = vector_zero;
  q_measured = unit;
  sun_body = vector_zero;
  rw_speeds = [];
  rw_torques_prev = [];
}

abbrev state : State Fixed
state = record { q = unit; w = vector_zero; pos = vector_zero; vel = vector_zero }

abbrev target : GuidanceTarget Fixed
target = record { q = unit; w = vector_zero; mode = "" }

abbrev cycles : List (Cycle Fixed)
cycles = (sensors 3, state, target, lit 1 1) ∷ (sensors 4, state, target, lit 1 1) ∷ []

abbrev controller : Bdot Fixed
unfolding init
controller = init (lit 2 0)

commands-reset_example :
    commands (reset controller) ((sensors 2, state, target, lit 1 1) ∷ cycles)
    ≡ vector_zero ∷ against_change controller.gain (sensors 2).mag_body cycles
unfolding AllLong
commands-reset_example =
    commands-reset controller (sensors 2) state target (lit 1 1) cycles (refl, (refl, tt))
