-- ===== src/Gnc/Pid/Tests.antt =====
-- Runs of the PID controller on concrete numbers.
use cubesat_fsw_gnc.Prelude.{◌≡◌, refl, List, [], ◌∷◌}
use cubesat_fsw_gnc.Double.{lit}
use cubesat_fsw_gnc.Fixed.{Fixed, nan, fixed_double, Fixed-IsOrdered, fixed_has_nan}
use cubesat_fsw_gnc.Gnc.Pid.{PidConfig, Pid, init, calculate, clamp, i_term, d_term}
use cubesat_fsw_gnc.Gnc.Pid.Limits.{
  Call, calculate_call, reset_call, set_gains_call, Within, run, calculate-run, calculate-is_nan,
}

abbrev config : PidConfig Fixed
config = record {
  kp = lit 1 0;
  ki = lit 1 2;
  kd = lit 1 1;
  limit = lit 1 0;
  anti_windup_limit = lit 5 1;
}

abbrev controller : Pid Fixed
unfolding init
controller = init config

abbrev calls : List (Call Fixed)
calls =
    calculate_call (lit 3 0) (lit 1 1)
    ∷ reset_call
    ∷ set_gains_call (lit 2 0) (lit 0 0) (lit 0 0)
    ∷ []

saturates : (calculate controller (lit 3 0) (lit 1 1)).1 ≡ lit 1 0
unfolding calculate controller init clamp i_term d_term
saturates = refl

calculate-run_example : Within (lit 1 0) (calculate (run calls (init config)) (lit 7 0) (lit 1 1)).1
unfolding Within
calculate-run_example =
    calculate-run Fixed-IsOrdered config calls (lit 7 0) (lit 1 1) refl (refl, refl)

calculate-is_nan_example : (calculate controller nan (lit 1 1)).1 ≡ lit 1 0
unfolding controller
calculate-is_nan_example = calculate-is_nan fixed_has_nan controller nan (lit 1 1) refl refl refl
