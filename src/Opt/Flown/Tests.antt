-- ===== src/Opt/Flown/Tests.antt =====
-- The search over flights of the flight software, without an estimator or a controller for detumbling.
use cubesat_fsw_gnc.Fixed.{
  Fixed, fixed_double, fixed_eigen, fixed_libm, fixed_matrices, fixed_stored, fixed_reductions,
  fixed_has_nan, Fixed-IsOrdered,
}
use cubesat_fsw_gnc.Prelude.{
  ℕ, arith, ◌+◌, ◌*◌, ◌%◌, suc, ◌≡◌, refl, false, Option, none, some, [], ◌∷◌, length,
}
use cubesat_fsw_gnc.Core.ModeManager
use cubesat_fsw_gnc.Core.ModeManager.{safe, default_config}
use cubesat_fsw_gnc.FlightSoftware.Control.{control, detumble}
use cubesat_fsw_gnc.FlightSoftware.Construct.{evaluator_config, construct}
use cubesat_fsw_gnc.Eigen.{Vector3, vector_zero, quaternion_identity}
use cubesat_fsw_gnc.Gnc.Interfaces.{SensorData, State, Estimator, Controller}
use cubesat_fsw_gnc.Opt.Flown.Idle.{construct-IsIdle}
use cubesat_fsw_gnc.FlightSoftware.Step
use cubesat_fsw_gnc.Gnc.Factory.{AnyController, any_controller}
use cubesat_fsw_gnc.Gnc.Mekf.{Mekf, mekf}
use cubesat_fsw_gnc.FlightSoftware.State.{Subscribers, FlightSoftware}
use cubesat_fsw_gnc.Core.DataStore.{DataStore}
use cubesat_fsw_gnc.Opt.Optimizer.Sorting.{insertion_sort-SortsByCost, insertion_sort}
use cubesat_fsw_gnc.Opt.Flown.{optimize-flown, flight_software}
use cubesat_fsw_gnc.Double.{HasNan, lit, ◌≺◌}
use cubesat_fsw_gnc.Opt.Optimizer.{Random, Config, optimize}
use cubesat_fsw_gnc.Prelude.Options.{Returns}
use cubesat_fsw_gnc.Sim.Loop.{Flight}
use cubesat_fsw_gnc.Sim.Noise.{Noise}
use cubesat_fsw_gnc.FlightSoftware.State
use cubesat_fsw_gnc.Opt.Fitness.{dt}
use cubesat_fsw_gnc.Opt.Fitness.Flights.{clock, cost_of}

instance abbrev silent : Noise Fixed ℕ
silent = record { next = λ g. (lit g 0, g + 1) }

instance abbrev counting : Random Fixed ℕ
counting = record {
  uniform = λ g. (lit (g * 7 % 10) 1, g + 1);
  integer = λ n g. (g * 5 % suc n, g + 1);
  normal = λ s g. g;
  draw = λ g. (lit (g % 4) 0, g + 1);
}

instance abbrev no_nan : HasNan Fixed
no_nan = fixed_has_nan

-- An estimator that always reports rest.
instance abbrev resting : Estimator Fixed ℕ
resting = record {
  update = λ x sensors dt. x;
  get_attitude = λ x. quaternion_identity;
  get_angular_velocity = λ x. vector_zero;
  reset = λ x. x;
}

-- A controller that is the gain of its torque about X.
instance abbrev gain : Controller Fixed Fixed
gain = record {
  update = λ c sensors state target dt. (c, record { x = c; y = lit 0 0; z = lit 0 0 });
  reset = λ c. c;
}

abbrev rest : State Fixed
rest = record { q = quaternion_identity; w = vector_zero; pos = vector_zero; vel = vector_zero }

abbrev boot : Fixed → Fixed → Fixed → FlightSoftware Fixed ℕ Fixed ℕ
boot kp ki kd =
    State.init default_config (record { x = lit 1 0; y = lit 0 0; z = lit 0 0 }) (some 0) (some kp)
      none (record { data_map = []; subscribers = [] }) (λ i. 0) rest

abbrev small : Config Fixed
small = record {
  population_size = 3;
  num_generations = 2;
  mutation_rate = lit 5 1;
  mutation_step = lit 1 1;
  num_elites = 1;
  min_gains = lit 0 0 ∷ lit 0 0 ∷ lit 0 0 ∷ [];
  max_gains = lit 5 0 ∷ lit 5 1 ∷ lit 10 0 ∷ [];
}

two_steps : ◌≺◌ {D = Fixed} (clock 2 (lit 0 0)) (lit 2 1) ≡ false
unfolding clock dt
two_steps = refl

abbrev flown : Flight Fixed (FlightSoftware Fixed ℕ Fixed ℕ)
flown = flight_software rest

optimize-flown_example :
    Returns
      (λ (genes, g1). length genes ≡ 3)
      (optimize {G = ℕ}
        (cost_of ℕ {G = ℕ} ⦃flight = flown⦄ boot 3
          (record { gyro = 5; mag = 6; star_tracker = 7 })
          (lit 2 1))
        insertion_sort
        small
        1)
optimize-flown_example =
    optimize-flown rest boot insertion_sort small 3 2 (lit 2 1)
      (record { gyro = 5; mag = 6; star_tracker = 7 }) 1
      (omega arith, refl, omega arith, omega arith) (insertion_sort-SortsByCost Fixed-IsOrdered)
      (omega arith) two_steps

instance abbrev filter : Estimator Fixed (Mekf Fixed ℕ)
filter = mekf

abbrev empty_store : DataStore Fixed (Subscribers Fixed (AnyController Fixed))
empty_store = record { data_map = []; subscribers = [] }

abbrev Software : Type 0
Software = FlightSoftware Fixed (Mekf Fixed ℕ) (AnyController Fixed) ℕ

abbrev get_state : Option Software → Software → Software
get_state none f = f
get_state (some f) g = f

abbrev fallback : Software
fallback = State.init default_config vector_zero none none none empty_store (λ i. 0) rest

abbrev evaluated : Software
evaluated =
    get_state (construct (evaluator_config (lit 1 0) (lit 1 1) (lit 2 0)) empty_store (λ i. 0) rest)
      fallback

abbrev still : SensorData Fixed
still = record {
  mag_body = vector_zero;
  gyro_body = record { x = lit 2 0; y = lit 0 0; z = lit 0 0 };
  q_measured = quaternion_identity;
  sun_body = vector_zero;
  rw_speeds = [];
  rw_torques_prev = [];
}

abbrev get_result : Option (Software × Vector3 Fixed) → Software × Vector3 Fixed
get_result none = (fallback, record { x = lit 1 0; y = lit 0 0; z = lit 0 0 })
get_result (some p) = p

abbrev first : Software × Vector3 Fixed
first = get_result (Step.step evaluated still [] (lit 1 1) rest)

construct-evaluated :
    construct (evaluator_config (lit 1 0) (lit 1 1) (lit 2 0)) empty_store (λ i. 0) rest
    ≡ some evaluated
unfolding construct evaluator_config
construct-evaluated = refl

step-evaluated : Step.step evaluated still [] (lit 1 1) rest ≡ some (first.0, first.1)
unfolding Step.step Step.complete Step.manage_wheels
step-evaluated = refl

stays_safe : first.0.mode_manager.current_mode ≡ safe
unfolding Step.step Step.complete Step.manage_wheels Step.finish control ModeManager.update
    Step.process_commands construct evaluator_config ModeManager.init detumble
stays_safe = refl

construct-IsIdle_example : first.1 ≡ vector_zero
construct-IsIdle_example =
    construct-IsIdle (lit 1 0) (lit 1 1) (lit 2 0) empty_store (λ i. 0) rest evaluated first.0 still
      (lit 1 1) first.1 construct-evaluated refl step-evaluated stays_safe
