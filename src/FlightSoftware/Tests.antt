-- ===== src/FlightSoftware/Tests.antt =====
-- Cycles of the flight software on concrete inputs, with the attitude controller for pointing.
use cubesat_fsw_gnc.Prelude.{
  true, false, replicate, ℕ, ◌≡◌, refl, List, [], ◌∷◌, Option, none, some, get_elem?, arith,
}
use cubesat_fsw_gnc.Double.{lit}
use cubesat_fsw_gnc.Eigen.{Vector3, vector_zero, quaternion_identity}
use cubesat_fsw_gnc.Fixed.{
  fixed_stored, Fixed, fixed_double, fixed_eigen, fixed_libm, fixed_matrices,
}
use cubesat_fsw_gnc.Core.ModeManager.{default_config, nominal, safe, force_mode_change}
use cubesat_fsw_gnc.Gnc.Interfaces.{State, Estimator, Controller}
use cubesat_fsw_gnc.Gnc.AttitudeController.{AttitudeController, attitude_controller}
use cubesat_fsw_gnc.FlightSoftware.State.{FlightSoftware}
use cubesat_fsw_gnc.FlightSoftware.Cycle.{Input, cycle}
use cubesat_fsw_gnc.FlightSoftware.Uplinked.{wired, guided, create_all, process_commands-create}
use cubesat_fsw_gnc.FlightSoftware.Commands.{step-failed, step-rests}
use cubesat_fsw_gnc.FlightSoftware.Overread.{step-cleared}
use cubesat_fsw_gnc.Fdir.Health.{failed}
use cubesat_fsw_gnc.Telemetry.GroundStation.{GroundStation}
use cubesat_fsw_gnc.Telemetry.Command.{
  Command, slew_to_nadir_command, set_pid_gains_command, slew_to_target_command,
}
use cubesat_fsw_gnc.FlightSoftware.Step.{
  step, process_commands, enqueue_all, estimate, complete, manage_wheels, adopt, finish, configure,
}
use cubesat_fsw_gnc.FlightSoftware.Control.{detumble, control, pointing, distribute, steer}
use cubesat_fsw_gnc.Core.CommandManager
use cubesat_fsw_gnc.Core.ModeManager
use cubesat_fsw_gnc.Gnc.ControlAllocator.{reconfigure, assign_torques, allocate, set_wheel_health}
use cubesat_fsw_gnc.Fdir.Actions.{update_wheels}
use cubesat_fsw_gnc.Fdir.Wheels.{
  fresh_wheel, update_loop, update_wheel, grow, failed_count, check_torque, wheel_status,
}

-- An estimator that always reports rest.
instance abbrev pub resting : Estimator Fixed Unit
resting = record {
  update = λ x sensors dt. x;
  get_attitude = λ x. quaternion_identity;
  get_angular_velocity = λ x. vector_zero;
  reset = λ x. x;
}

instance abbrev pub pointing_controller : Controller Fixed (AttitudeController Fixed)
pointing_controller = attitude_controller

abbrev pub rest : State Fixed
rest = record { q = quaternion_identity; w = vector_zero; pos = vector_zero; vel = vector_zero }

abbrev pub input : List Fixed → Input Fixed
input speeds = record {
  sensors = record {
    mag_body = vector_zero;
    gyro_body = vector_zero;
    q_measured = quaternion_identity;
    sun_body = vector_zero;
    rw_speeds = speeds;
    rw_torques_prev = [];
  };
  raw_commands = [];
  dt = lit 1 1;
  unset = rest;
}

abbrev pub slow : Input Fixed
slow = input (replicate 4 (lit 0 0))

abbrev pub sun : Vector3 Fixed
sun = record { x = lit 1 0; y = lit 0 0; z = lit 0 0 }

-- The flight software in NOMINAL mode, with a short history.
abbrev operating : FlightSoftware Fixed Unit (AttitudeController Fixed) ℕ
operating = record {
  sun_inertial = sun;
  mode_manager = record {
    current_mode = nominal;
    previous_mode = safe;
    config = default_config;
    time_in_current_mode = lit 0 0;
    callback = false;
    calls = [];
  };
  estimator = some tt;
  subscribers = record {
    guidance_mode = "TARGET";
    target_q = quaternion_identity;
    attitude_controller = none;
    bdot_controller = none;
  };
  data_store = record { data_map = []; subscribers = [] };
  telemetry_manager = record {
    packet_buffer = [];
    attitude_timer = lit 0 0;
    orbit_timer = lit 0 0;
    health_timer = lit 0 0;
  };
  counts = λ i. 0;
  command_manager = record { command_queue = [] };
  fdir = record {
    vector_monitors = [];
    redundancy_groups = [];
    sensor_to_group = [];
    wheel_monitors = replicate 4 fresh_wheel;
    auto_mekf_reset = true;
    auto_mode_transition = true;
    critical_sensors = [];
  };
  control_allocator = record { a_nominal = 4; wheel_healthy = replicate 4 true };
  last_torque_cmd = vector_zero;
  last_rw_torque_cmds = replicate 4 (lit 0 0);
  accumulated_time = lit 0 0;
  telemetry_queue = record { capacity = 2; head = 0; tail = 0; buffer = rest ∷ rest ∷ [] };
  state_history = record { max_size = 1; current_size = 0; head = 0; rows = rest ∷ [] };
}

abbrev broken : Input Fixed
broken = input (lit 100 0 ∷ lit 0 0 ∷ lit 0 0 ∷ lit 0 0 ∷ [])

abbrev Result : Type 0
Result = FlightSoftware Fixed Unit (AttitudeController Fixed) ℕ × Vector3 Fixed

abbrev result_of : Option Result → Result → Result
result_of none r = r
result_of (some r) s = r

abbrev after_broken : Result
after_broken = result_of (cycle operating broken) (operating, vector_zero)

-- The failed wheel is left out, and the others are commanded.
broken_wheel :
    (cycle operating broken ≡ some after_broken)
    × (wheel_status after_broken.0.fdir.wheel_monitors 0 ≡ failed)
    × (after_broken.0.last_rw_torque_cmds ≡ lit 0 0 ∷ lit 2 0 ∷ lit 3 0 ∷ lit 4 0 ∷ [])
unfolding step process_commands enqueue_all CommandManager.update estimate complete manage_wheels
    adopt update_wheels update_loop grow update_wheel finish control ModeManager.update pointing
    detumble failed_count check_torque force_mode_change distribute steer allocate configure
    set_wheel_health wheel_status reconfigure assign_torques
broken_wheel = (refl, refl, refl)

step-failed_example : get_elem? after_broken.0.last_rw_torque_cmds 0 ≡ some (lit 0 0)
step-failed_example =
    step-failed operating after_broken.0 broken after_broken.1 0 refl refl refl broken_wheel.0
      (omega arith) broken_wheel.1

abbrev two_broken : Input Fixed
two_broken = input (lit 100 0 ∷ lit 0 0 ∷ lit 100 0 ∷ lit 0 0 ∷ [])

abbrev after_two : Result
after_two = result_of (cycle operating two_broken) (operating, vector_zero)

-- Two failed wheels force SAFE mode.
fallen :
    (cycle operating two_broken ≡ some after_two) × (after_two.0.mode_manager.current_mode ≡ safe)
unfolding step process_commands enqueue_all CommandManager.update estimate complete manage_wheels
    adopt update_wheels update_loop grow update_wheel finish control ModeManager.update pointing
    detumble failed_count check_torque force_mode_change distribute steer allocate configure
    set_wheel_health wheel_status reconfigure assign_torques
fallen = (refl, refl)

step-rests_example : after_two.0.last_rw_torque_cmds ≡ replicate 4 (lit 0 0)
step-rests_example =
    step-rests operating after_two.0 two_broken after_two.1 refl refl fallen.0 fallen.1

abbrev after_none : Result
after_none = result_of (cycle operating (input [])) (operating, vector_zero)

without_wheels :
    (cycle operating (input []) ≡ some after_none)
    × (after_none.0.mode_manager.current_mode ≡ nominal)
unfolding step process_commands enqueue_all CommandManager.update estimate complete manage_wheels
    adopt update_wheels update_loop grow update_wheel finish control ModeManager.update pointing
    detumble failed_count check_torque force_mode_change distribute steer allocate configure
    set_wheel_health wheel_status reconfigure assign_torques
without_wheels = (refl, refl)

step-cleared_example : cycle after_none.0 slow ≡ none
step-cleared_example =
    step-cleared operating after_none.0 (input []) slow after_none.1 1 (lit 0 0) refl refl refl
      without_wheels.0 (λ e. ground (arith, without_wheels.1, e)) refl refl refl refl

abbrev commanded : FlightSoftware Fixed Unit (AttitudeController Fixed) ℕ
commanded = record operating { data_store = wired }

abbrev station : GroundStation Fixed
station = record {
  last_attitude = record { q = quaternion_identity; omega = vector_zero };
  last_orbit = record { position = vector_zero; velocity = vector_zero };
  health_map = [];
  command_sequence_count = 5;
}

abbrev commands : List (Command Fixed)
commands =
    slew_to_nadir_command
    ∷ set_pid_gains_command (lit 2 0) (lit 1 1) (lit 3 1) true
    ∷ slew_to_target_command quaternion_identity
    ∷ []

process_commands-create_example :
    let f' = process_commands commanded (create_all station commands) in
    (f'.command_manager.command_queue ≡ [])
    × (f'.subscribers ≡ guided commands commanded.subscribers)
process_commands-create_example = process_commands-create commanded station commands refl
