-- ===== src/MonteCarlo/Tests.antt =====
-- Runs whose angular rates are all NaN.
use cubesat_fsw_gnc.Fixed.{
  is_nan, Fixed, nan, fixed_double, fixed_eigen, fixed_libm, fixed_matrices, fixed_stored,
  fixed_reductions,
}
use cubesat_fsw_gnc.Double.{◌⊖◌, ◌⊕◌, ◌⊗◌}
use cubesat_fsw_gnc.Sim.Orbit.{clamp}
use cubesat_fsw_gnc.Sim.Integrator.{rk4}
use cubesat_fsw_gnc.Sim.RigidBody.{RigidBody}
use cubesat_fsw_gnc.Gnc.Interfaces.{SensorData}
use cubesat_fsw_gnc.MonteCarlo.{
  Generators, Matrices, Simulation, get_angular_velocity, lit, Draws, Eigen, MonteCarloConfig,
  Noise, angular_rate, ◌≺◌, loop, start_result, run,
}
use mathlib.Core.Option.{some-injective}
use cubesat_fsw_gnc.Prelude.{
  ℕ, arith, ◌+◌, ◌≡◌, refl, sym, ap, ◌∙◌, true, false, Option, some, [], length,
}
use cubesat_fsw_gnc.Eigen.{vector_zero, Vector3}
use cubesat_fsw_gnc.MonteCarlo.Outcomes.{run-Returns, IsLost, passes, loop-lost}
use cubesat_fsw_gnc.Prelude.Options.{Returns-some, Returns}
use cubesat_fsw_gnc.Sim.Simulation
use cubesat_fsw_gnc.Sim.RigidBody
use cubesat_fsw_gnc.Core.ModeManager.{nominal}
use cubesat_fsw_gnc.Sim.Simulation.{get_sensors, default_config}
use cubesat_fsw_gnc.Sim.Loop.{advance, pointing_error, Flight, World}

instance abbrev silent : Noise Fixed ℕ
silent = record { next = λ g. (lit g 0, g + 1) }

instance abbrev fixed_draws : Draws Fixed ℕ
fixed_draws = record {
  seeded = λ seed. seed;
  uniform = λ low high g. (high, g + 1);
  normal = λ mean deviation g. (mean, g + 1);
}

abbrev idle_step : ℕ → SensorData Fixed → Fixed → Option (ℕ × Vector3 Fixed)
idle_step f sensors h = some (f + 1, vector_zero)

idle_step-Returns :
    (f : ℕ) (sensors : SensorData Fixed) (h : Fixed)
    → sensors.rw_speeds ≡ []
    → Returns {0, 0} (λ t. Unit) (idle_step f sensors h)
idle_step-Returns f sensors h empty = Returns-some tt

instance abbrev idle : Flight Fixed ℕ
idle = record {
  step = idle_step;
  get_current_mode = λ f. nominal;
  step-Returns = idle_step-Returns;
}

-- Two steps of 0.1 s.
abbrev short : MonteCarloConfig Fixed
short = record {
  num_runs = 3;
  duration = lit 2 1;
  dt = lit 1 1;
  inertia_variation = lit 2 1;
  gyro_noise_max = lit 1 2;
  mag_noise_max = lit 1 6;
  prob_dead_gyro = lit 5 2;
  prob_dead_wheel = lit 5 2;
  pass_pointing_error_deg = lit 10 0;
  pass_rate_rads = lit 2 2;
}

abbrev seeds : ℕ → Generators ℕ
seeds n = record { gyro = n; mag = n + 1; star_tracker = n + 2 }

run-Returns_example :
    Returns
      (λ (results, successes). (length results ≡ 3) × (successes ≡ passes results))
      (run ℕ ℕ {H = ℕ} {F = ℕ} 0 seeds short 3)
run-Returns_example = run-Returns ℕ ℕ 0 seeds short 3 2 (omega arith) refl

-- In place of a matrix, a number that all its entries have, and that every operation computes with.
instance abbrev uniform_matrices : Matrices Fixed Fixed
uniform_matrices = record {
  zero = λ rows cols. lit 0 0;
  of_rows = λ rows. lit 1 0;
  of_vector3 = λ v. v.x;
  col = λ a i. a;
  set_col = λ a i c. a ⊕ c;
  transpose = λ a. a;
  negate = λ a. fixed_double.neg a;
  mul = λ a b. a ⊗ b;
  inverse = λ a. a;
  determinant = λ a. a;
  at = λ a i. a;
  entry = λ a i j. a;
  identity = λ n. lit 1 0;
  rows = λ a. 3;
  cols = λ a. 3;
  set_at = λ a i j x. a ⊕ x;
  set_block = λ a i j b. a ⊕ b;
  segment3 = λ a i. record { x = a; y = a; z = a };
  stack = λ v w. v.x ⊕ w.x;
  add = λ a b. a ⊕ b;
  sub = λ a b. a ⊖ b;
  scale = λ x a. x ⊗ a;
  has_nan = is_nan;
  coeffs = λ a. record { w = a; x = a; y = a; z = a };
  stack_coeffs = λ q v. q.w ⊕ v.x;
}

-- A rotation that computes with the quaternion.
abbrev turning : Eigen Fixed
turning = record fixed_eigen {
  rotate = λ q v. record { x = q.w ⊗ v.x; y = q.w ⊗ v.y; z = q.w ⊗ v.z };
}

-- A world whose attitude and angular velocity are NaN.
abbrev world : World Fixed ℕ Fixed ℕ
world =
    let s : Simulation Fixed ℕ Fixed = Simulation.init default_config (seeds 3) in
    record { sim = record s { body = record (s.body) { state = nan } }; fsw = 0 }

abbrev IsInvalid : World Fixed ℕ Fixed ℕ → Type 0
IsInvalid w = w.sim.body.state ≡ nan

nan_lt : (a : Fixed) → ◌≺◌ {D = Fixed} a nan ≡ false
nan_lt a = ground arith

invalid-IsLost : (w : World Fixed ℕ Fixed ℕ) → IsInvalid w → IsLost ⦃e = turning⦄ w
unfolding angular_rate pointing_error RigidBody.get_angular_velocity RigidBody.get_attitude clamp
invalid-IsLost w h = record { rate = λ a. rw h (nan_lt a); error = λ a. rw h (nan_lt a) }

step-nan :
    (b : RigidBody Fixed) (dt : Fixed) (torque : Vector3 Fixed)
    → b.state ≡ nan
    → (RigidBody.step ⦃e = turning⦄ b dt torque vector_zero vector_zero).state ≡ nan
unfolding RigidBody.step rk4
step-nan b dt torque h = rw h refl

advance-IsInvalid :
    (w w1 : World Fixed ℕ Fixed ℕ) (torque : Vector3 Fixed)
    → IsInvalid w
    → advance ⦃e = turning⦄ w (lit 1 1) ≡ some (w1, torque)
    → IsInvalid w1
unfolding advance get_sensors Simulation.step
advance-IsInvalid w w1 torque p h =
    ap (λ x. x.0.sim.body.state) (sym (some-injective _ _ h))
    ∙ step-nan w.sim.body (lit 1 1) vector_zero p

loop-lost_example :
    Returns (λ res'. res'.success ≡ true) (loop ⦃e = turning⦄ short 3 (lit 0 0) world start_result)
unfolding start_result
loop-lost_example =
    loop-lost ⦃e = turning⦄ short IsInvalid invalid-IsLost advance-IsInvalid 3 2 (lit 0 0) world
      start_result refl (refl, refl) (omega arith) refl
