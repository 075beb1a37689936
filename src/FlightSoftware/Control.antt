-- ===== src/FlightSoftware/Control.antt =====
-- src/fsw/FlightSoftware.cpp: sections 4 and 5 of the step, from the mode to the torques.
use text.Mathlib.Text.{◌==◌ as str_eq}
use cubesat_fsw_gnc.Prelude.{
  Bool, true, false, List, [], Option, none, some, if◌then◌else◌, ◌==◌, length, replicate,
}
use cubesat_fsw_gnc.Double.{Double, lit}
use cubesat_fsw_gnc.Eigen.{Eigen, Vector3, Quaternion, vector_zero}
use cubesat_fsw_gnc.Linear.{Matrices}
use cubesat_fsw_gnc.Core.ModeManager
use cubesat_fsw_gnc.Core.ModeManager.{
  ModeManager, ModeTransitionConfig, MissionMode, safe, same_mode, force_mode_change,
}
use cubesat_fsw_gnc.Core.DataStore.{string_payload, quaternion_payload}
use cubesat_fsw_gnc.Gnc.Interfaces.{SensorData, State, GuidanceTarget, Controller}
use cubesat_fsw_gnc.Gnc.ControlAllocator.{allocate}
use cubesat_fsw_gnc.Gnc.Guidance.{align_axis, nadir_pointing}
use cubesat_fsw_gnc.FlightSoftware.State.{FlightSoftware}

module _ {D C : Type 0} ⦃d : Double D⦄ where
  -- A controller behind a pointer: no controller gives no torque.
  unfoldable pub steer :
      ⦃ctl : Controller D C⦄
      → Option C
      → SensorData D
      → State D
      → GuidanceTarget D
      → D
      → Option C × Vector3 D
  steer none sensors state target dt = (none, vector_zero)
  steer ⦃ctl⦄ (some c) sensors state target dt =
      let (c', torque) = ctl.update c sensors state target dt in (some c', torque)

module _ {D E C M : Type 0} ⦃d : Double D⦄ where
  -- The choice of the target attitude in section 5.
  unfoldable pub target_attitude : ⦃e : Eigen D⦄ → FlightSoftware D E C M → Quaternion D
  target_attitude f =
      let sc_pos : Vector3 D = record { x = lit 1000000 0; y = lit 0 0; z = lit 0 0 } in
      let sc_vel : Vector3 D = record { x = lit 0 0; y = lit 7500 0; z = lit 0 0 } in
      if str_eq f.guidance_mode "NADIR"
      then nadir_pointing sc_pos sc_vel
      else (if str_eq f.guidance_mode "TARGET"
          then f.target_q
          else align_axis (record { x = lit 0 0; y = lit 0 0; z = lit 1 0 }) f.sun_inertial)

module _ {D E C M : Type 0} ⦃d : Double D⦄ where
  -- The allocation of a torque to the four wheels, or the end of a failed one.
  unfoldable pub distribute :
      FlightSoftware D E C M → Vector3 D → List D × Bool → FlightSoftware D E C M × Vector3 D
  distribute f torque (torques, true) = (record f { last_rw_torque_cmds = torques }, torque)
  distribute f torque (torques, false) = (
    record f {
      mode_manager = force_mode_change f.mode_manager safe;
      last_rw_torque_cmds = replicate 4 (lit 0 0);
    },
    vector_zero,
  )

module _ {D E C M : Type 0} ⦃d : Double D⦄ ⦃m : Matrices D M⦄ ⦃ctl : Controller D C⦄ where
  -- Section 5 in SAFE mode.
  unfoldable pub detumble :
      FlightSoftware D E C M
      → SensorData D
      → State D
      → GuidanceTarget D
      → D
      → FlightSoftware D E C M × Vector3 D
  detumble f sensors state target dt =
      let (c, torque) = steer f.bdot_controller sensors state target dt in
      (
        record f {
          subscribers = record f.subscribers { bdot_controller = c };
          last_rw_torque_cmds = replicate 4 (lit 0 0);
        },
        torque,
      )

  -- Section 5 in the other modes.
  unfoldable pub pointing :
      ⦃e : Eigen D⦄
      → FlightSoftware D E C M
      → SensorData D
      → State D
      → D
      → FlightSoftware D E C M × Vector3 D
  pointing f sensors state dt =
      let target : GuidanceTarget D = record {
        q = target_attitude f;
        w = vector_zero;
        mode = f.guidance_mode;
      } in
      let (c, torque) = steer f.attitude_controller sensors state target dt in
      let f' = record f { subscribers = record f.subscribers { attitude_controller = c } } in
      if length sensors.rw_speeds == 4
      then distribute f' torque (allocate f.control_allocator torque)
      else (record f' { last_rw_torque_cmds = [] }, torque)

  -- Sections 4 and 5.
  unfoldable pub control :
      ⦃e : Eigen D⦄
      → FlightSoftware D E C M
      → SensorData D
      → State D
      → D
      → State D
      → FlightSoftware D E C M × Vector3 D
  control f sensors state dt unset =
      let f' = record f { mode_manager = ModeManager.update f.mode_manager state.w dt } in
      let target : GuidanceTarget D = record { q = unset.q; w = unset.w; mode = f.guidance_mode } in
      if same_mode f'.mode_manager.current_mode safe
      then detumble f' sensors state target dt
      else pointing f' sensors state dt
