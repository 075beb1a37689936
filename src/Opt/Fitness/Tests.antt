-- ===== src/Opt/Fitness/Tests.antt =====
-- Evaluations of gains over two steps, with a flight software that commands nothing.
use cubesat_fsw_gnc.Fixed.{
  Fixed, fixed_double, fixed_eigen, fixed_libm, fixed_matrices, fixed_stored, fixed_reductions,
  fixed_has_nan,
}
use cubesat_fsw_gnc.Prelude.{
  ℕ, arith, ◌+◌, ◌≤◌, zero, suc, ◌≡◌, refl, true, false, Option, some, List, [], ◌∷◌,
}
use cubesat_fsw_gnc.Sim.RigidBody
use cubesat_fsw_gnc.Sim.Orbit
use cubesat_fsw_gnc.Sim.Gyro
use cubesat_fsw_gnc.Sim.Magnetometer
use cubesat_fsw_gnc.Sim.StarTracker
use cubesat_fsw_gnc.Sim.StarTracker.{get_orientation}
use cubesat_fsw_gnc.Sim.Integrator.{rk4}
use cubesat_fsw_gnc.Opt.Fitness.Flights.{visit, clock, loop-visit}
use cubesat_fsw_gnc.Double.{◌≺◌}
use cubesat_fsw_gnc.Eigen.{vector_zero}
use cubesat_fsw_gnc.Opt.Fitness.Seeds.{evaluate-reseed}
use cubesat_fsw_gnc.Opt.Fitness.{
  Vector3, HasNan, Noise, lit, start_config, start_tally, evaluate, loop, dt, is_failure, add_step,
}
use cubesat_fsw_gnc.Prelude.Options.{Returns-some, Returns}
use cubesat_fsw_gnc.Gnc.Interfaces.{SensorData}
use cubesat_fsw_gnc.Sim.Simulation
use cubesat_fsw_gnc.Sim.Loop.{pointing_error, advance, Flight, World}
use cubesat_fsw_gnc.Core.ModeManager.{safe}
use cubesat_fsw_gnc.Sim.Simulation.{get_sensors, Generators}

instance abbrev silent : Noise Fixed ℕ
silent = record { next = λ g. (lit g 0, g + 1) }

abbrev idle_step : ℕ → SensorData Fixed → Fixed → Option (ℕ × Vector3 Fixed)
idle_step f sensors h = some (f + 1, vector_zero)

idle_step-Returns :
    (f : ℕ) (sensors : SensorData Fixed) (h : Fixed)
    → sensors.rw_speeds ≡ []
    → Returns {0, 0} (λ t. Unit) (idle_step f sensors h)
idle_step-Returns f sensors h empty = Returns-some tt

instance abbrev idle : Flight Fixed ℕ
idle = record { step = idle_step; get_current_mode = λ f. safe; step-Returns = idle_step-Returns }

instance abbrev no_nan : HasNan Fixed
no_nan = fixed_has_nan

abbrev boot : Fixed → Fixed → Fixed → ℕ
boot kp ki kd = 0

abbrev gains : List Fixed
gains = lit 1 0 ∷ lit 1 1 ∷ lit 2 0 ∷ []

-- Three clock readings, one after the other.
abbrev seeds : ℕ → Generators ℕ
seeds n = record { gyro = n; mag = n + 1; star_tracker = n + 2 }

abbrev world : World Fixed ℕ ℕ ℕ
world = record { sim = Simulation.init start_config (seeds 3); fsw = 0 }

two_steps : ◌≺◌ {D = Fixed} (clock 2 (lit 0 0)) (lit 2 1) ≡ false
unfolding clock dt
two_steps = refl

evaluate-reseed_example :
    evaluate ℕ {G = ℕ} boot 3 (seeds 8) gains (lit 2 1)
    ≡ evaluate ℕ {G = ℕ} boot 3 (seeds 5) gains (lit 2 1)
evaluate-reseed_example = evaluate-reseed ℕ boot 3 (seeds 5) (seeds 8) gains (lit 2 1) refl

loop-world : loop 3 (lit 2 1) (lit 0 0) world start_tally ≡ some (some start_tally)
unfolding loop dt advance get_sensors Simulation.step pointing_error is_failure add_step start_tally
loop-world = refl

abbrev moved : World Fixed ℕ ℕ ℕ → World Fixed ℕ ℕ ℕ
moved w = record { sim = Simulation.step w.sim (lit 1 1) vector_zero; fsw = w.fsw + 1 }

visit-world : visit 2 world ≡ some (moved (moved world))
unfolding visit advance get_sensors Simulation.step dt RigidBody.step Orbit.step Gyro.read
    Magnetometer.set_time Magnetometer.read get_orientation Simulation.init RigidBody.dynamics
    RigidBody.init Orbit.init Gyro.init Magnetometer.init StarTracker.init rk4 start_config
    Magnetometer.default_config
visit-world = refl

early : (j : ℕ) → j ≤ 1 → ◌≺◌ {D = Fixed} (clock j (lit 0 0)) (lit 2 1) ≡ true
unfolding clock dt
early zero h = refl
early (suc zero) h = refl
early (suc (suc j)) h = absurd (omega arith)

loop-visit_example :
    let error = pointing_error (moved (moved world)).sim in
    (◌≺◌ {D = Fixed} (lit 3 0) error ≡ false) × (no_nan.is_nan error ≡ false)
loop-visit_example =
    loop-visit 3 1 (lit 2 1) (lit 0 0) world (moved (moved world)) start_tally loop-world early
      visit-world
