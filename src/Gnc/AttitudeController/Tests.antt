-- ===== src/Gnc/AttitudeController/Tests.antt =====
-- Runs of the attitude controller on concrete numbers.
use cubesat_fsw_gnc.Prelude.{List, [], ◌∷◌, true}
use cubesat_fsw_gnc.Double.{lit}
use cubesat_fsw_gnc.Eigen.{Quaternion, vector_zero}
use cubesat_fsw_gnc.Fixed.{Fixed, fixed_double, fixed_eigen, fixed_libm}
use cubesat_fsw_gnc.Gnc.Interfaces.{SensorData, State, GuidanceTarget}
use cubesat_fsw_gnc.Gnc.AttitudeController.{AttitudeController, default_attitude, init}
use cubesat_fsw_gnc.Gnc.AttitudeController.Gains.{Call, update_call, set_gains_call, reset_call}

abbrev turn : Quaternion Fixed
turn = record { w = lit 9 1; x = lit 1 1; y = lit 2 1; z = lit 0 0 }

abbrev sensors : SensorData Fixed
sensors = record {
  mag_body = vector_zero;
  gyro_body = vector_zero;
  q_measured = turn;
  sun_body = vector_zero;
  rw_speeds = [];
  rw_torques_prev = [];
}

abbrev state : State Fixed
state = record { q = turn; w = vector_zero; pos = vector_zero; vel = vector_zero }

abbrev target : GuidanceTarget Fixed
target = record { q = turn; w = vector_zero; mode = "" }

abbrev calls : List (Call Fixed)
calls =
    update_call sensors state target (lit 1 1)
    ∷ set_gains_call (lit 2 0) (lit 1 2) (lit 1 1) true
    ∷ update_call sensors state target (lit 1 1)
    ∷ reset_call
    ∷ []

abbrev controller : AttitudeController Fixed
unfolding init
controller = init default_attitude
