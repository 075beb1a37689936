-- ===== src/FlightSoftware/State.antt =====
-- src/fsw/FlightSoftware.hpp, and the constructor in FlightSoftware.cpp. The subscribers of the data
-- store are the guidance mode, the guidance target and the controllers.
use Prim.Native.String.{String}
use cubesat_fsw_gnc.Prelude.{List, [], Option, replicate}
use cubesat_fsw_gnc.Double.{Double, lit}
use cubesat_fsw_gnc.Eigen.{Vector3, Quaternion, vector_zero, quaternion_identity}
use cubesat_fsw_gnc.Linear.{Matrices}
use cubesat_fsw_gnc.Common.StateHistory
use cubesat_fsw_gnc.Common.StateHistory.{StateHistory, add_state}
use cubesat_fsw_gnc.Core.ModeManager
use cubesat_fsw_gnc.Core.ModeManager.{
  ModeManager, ModeTransitionConfig, MissionMode, safe, same_mode, force_mode_change,
}
use cubesat_fsw_gnc.Core.SpscQueue
use cubesat_fsw_gnc.Core.SpscQueue.{SpscQueue, push}
use cubesat_fsw_gnc.Core.DataStore.{DataStore, subscribe, string_payload, quaternion_payload}
use cubesat_fsw_gnc.Core.CommandManager.{CommandManager}
use cubesat_fsw_gnc.Gnc.Interfaces.{State}
use cubesat_fsw_gnc.Gnc.ControlAllocator
use cubesat_fsw_gnc.Gnc.ControlAllocator.{ControlAllocator, set_wheel_health, allocate}
use cubesat_fsw_gnc.Fdir.Manager.{FdirManager, init as fdir_init}
use cubesat_fsw_gnc.Telemetry.Service.{Counts}
use cubesat_fsw_gnc.Telemetry.Manager.{TelemetryManager}

-- What the callbacks of the data store change.
pub record Subscribers (D C : Type 0) : Type 0 where
  pub guidance_mode : String
  pub target_q : Quaternion D
  pub attitude_controller : Option C
  pub bdot_controller : Option C

-- `fdir` points to the mode manager and to the estimator beside it. `counts` are the sequence
-- counts of the telemetry service.
pub record FlightSoftware (D E C M : Type 0) : Type 0 where
  pub sun_inertial : Vector3 D
  pub mode_manager : ModeManager D
  pub estimator : Option E
  pub subscribers : Subscribers D C
  pub open subscribers use *
  pub data_store : DataStore D (Subscribers D C)
  pub telemetry_manager : TelemetryManager D
  pub counts : Counts
  pub command_manager : CommandManager D
  pub fdir : FdirManager D
  pub control_allocator : ControlAllocator M
  pub last_torque_cmd : Vector3 D
  pub last_rw_torque_cmds : List D
  pub accumulated_time : D
  pub telemetry_queue : SpscQueue (State D)
  pub state_history : StateHistory D

-- The two subscriptions of the constructor.
unfoldable pub subscribe_guidance :
    {D C : Type 0} → DataStore D (Subscribers D C) → DataStore D (Subscribers D C)
unfolding subscribe
subscribe_guidance {D} s =
    subscribe {T = Quaternion D}
      (subscribe {T = String} s "guidance/target_mode"
        (λ mode w. record w { guidance_mode = mode }))
      "guidance/target_quaternion" (λ q w. record w { target_q = q })

module _ {D E C M : Type 0} ⦃d : Double D⦄ ⦃m : Matrices D M⦄ where
  -- The constructor, with what the factory makes of the configuration: the estimator, the two
  -- controllers, and the store with their subscriptions. `unset` fills the cells of the new queue.
  unfoldable pub init :
      ModeTransitionConfig D
      → Vector3 D
      → Option E
      → Option C
      → Option C
      → DataStore D (Subscribers D C)
      → Counts
      → State D
      → FlightSoftware D E C M
  init mode_cfg sun_inertial estimator attitude bdot store counts unset = record {
    sun_inertial = sun_inertial;
    mode_manager = ModeManager.init mode_cfg;
    estimator = estimator;
    subscribers = record {
      guidance_mode = "SUN";
      target_q = quaternion_identity;
      attitude_controller = attitude;
      bdot_controller = bdot;
    };
    data_store = subscribe_guidance store;
    telemetry_manager = record {
      packet_buffer = [];
      attitude_timer = lit 0 0;
      orbit_timer = lit 0 0;
      health_timer = lit 0 0;
    };
    counts = counts;
    command_manager = record { command_queue = [] };
    fdir = fdir_init;
    control_allocator = ControlAllocator.init D;
    last_torque_cmd = vector_zero;
    last_rw_torque_cmds = replicate 4 (lit 0 0);
    accumulated_time = lit 0 0;
    telemetry_queue = SpscQueue.init 128 unset;
    state_history = StateHistory.init 1000;
  }
