-- ===== src/Fdir/Actions.antt =====
-- The recovery actions of src/fsw/fdir/FDIRManager.cpp. The mode manager and the filter that the
-- manager points to stand beside it, with `none` for a null pointer. Logging is left out.
pub mod Groups
pub mod Modes
pub mod Failures
pub mod Pairs
pub mod WheelModes
use Prim.Native.String.{String}
use text.Mathlib.Text.{◌==◌ as str_eq}
use mathlib.Core.Option
use cubesat_fsw_gnc.Prelude.{
  ℕ, ◌+◌, ◌≡◌, Bool, true, false, not, ◌&&◌, ◌||◌, List, [], ◌∷◌, Option, none, some, if◌then◌else◌,
  ◌==◌, leb, length, replicate, map,
}
use cubesat_fsw_gnc.Prelude.Dict.{lookup, insert}
use cubesat_fsw_gnc.Double.{Double, lit}
use cubesat_fsw_gnc.Eigen.{Eigen, Vector3, Quaternion}
use cubesat_fsw_gnc.Core.ModeManager.{
  ModeManager, MissionMode, safe, nominal, degraded as degraded_mode, same_mode, force_mode_change,
}
use cubesat_fsw_gnc.Gnc.Interfaces.{Estimator}
use cubesat_fsw_gnc.Fdir.Health.{
  HealthStatus, healthy, degraded, failed, same_status, GyroHealthConfig, MagnetometerHealthConfig,
}
use cubesat_fsw_gnc.Fdir.Monitor
use cubesat_fsw_gnc.Fdir.Monitor.{SensorHealthMonitor, vector3_measure}
use cubesat_fsw_gnc.Fdir.Wheels.{WheelHealthData, fresh_wheel, grow, failed_count, update_loop}
use cubesat_fsw_gnc.Fdir.Manager.{FdirManager, RedundancyGroup, is_critical_sensor}

-- The manager with the objects that `mode_manager_` and `mekf_` point to.
pub record Linked (D E : Type 0) : Type 0 where
  pub fdir : FdirManager D
  pub mode_manager : Option (ModeManager D)
  pub mekf : Option E

-- What a failed sensor does to its redundancy group; the flag is `failover_success`.
unfoldable pub fail_over : String → RedundancyGroup → RedundancyGroup × Bool
fail_over name g =
    if str_eq name g.primary && (str_eq g.active g.primary && g.backup_available)
    then (record g { active = g.backup; backup_available = false }, true)
    else (if str_eq name g.backup
        then (record g { backup_available = false }, false)
        else (g, false))

-- `redundancy_groups_[name]`, which makes an empty group for a missing key.
unfoldable pub group_at : String → List (String × RedundancyGroup) → RedundancyGroup
group_at name groups =
    Option.get_or (lookup name groups)
      (record { primary = ""; backup = ""; active = ""; backup_available = true })

module _ {D E : Type 0} ⦃d : Double D⦄ ⦃est : Estimator D E⦄ where
  abbrev force : Linked D E → MissionMode → Option (ModeManager D)
  force w new = Option.map (λ m. force_mode_change m new) w.mode_manager

  -- A failure with no failover: what happens to a critical sensor.
  unfoldable pub respond_critical : Linked D E → String → Linked D E
  unfolding is_critical_sensor
  respond_critical w name =
      let critical = is_critical_sensor w.fdir name in
      let f = w.fdir in
      record w {
        mekf = if f.auto_mekf_reset && critical then Option.map est.reset w.mekf else w.mekf;
        mode_manager = if f.auto_mode_transition && critical then force w safe else w.mode_manager;
      }

  unfoldable pub respond_failed : Linked D E → String → Linked D E
  unfolding respond_critical fail_over group_at
  respond_failed w name = elim (lookup name w.fdir.sensor_to_group) [
    | none ↦ respond_critical w name
    | some group ↦
        let (g, switched) = fail_over name (group_at group w.fdir.redundancy_groups) in
        let f = record (w.fdir) { redundancy_groups = insert group g w.fdir.redundancy_groups } in
        let w' = record w { fdir = f } in
        if switched
        then record w' {
          mode_manager = if f.auto_mode_transition then force w degraded_mode else w.mode_manager;
        }
        else respond_critical w' name
  ]

  -- `handleStatusChange` and `executeResponseActions`
  unfoldable pub execute_response_actions : Linked D E → String → HealthStatus → Linked D E
  unfolding respond_failed
  execute_response_actions w name failed = respond_failed w name
  execute_response_actions w name degraded = record w {
    mode_manager =
        if w.fdir.auto_mode_transition
        then Option.map
            (λ m. if same_mode m.current_mode nominal then force_mode_change m degraded_mode else m)
            w.mode_manager
        else w.mode_manager;
  }
  execute_response_actions w name healthy = w

  module _ ⦃e : Eigen D⦄ where
    -- `updateSensor`. The monitor's callback runs inside its `update`.
    unfoldable pub update_sensor : Linked D E → String → Vector3 D → D → Linked D E
    update_sensor w name measurement time = elim (lookup name w.fdir.vector_monitors) [
      | none ↦ w
      | some s ↦
          let (s', report) = Monitor.update s measurement time in
          let f = record (w.fdir) { vector_monitors = insert name s' w.fdir.vector_monitors } in
          let w' = record w { fdir = f } in
          elim report [ none ↦ w' | some status ↦ execute_response_actions w' name status ]
    ]

    -- `updateSensor` for a quaternion
    unfoldable pub update_star_tracker : Linked D E → String → Quaternion D → D → Linked D E
    unfolding update_sensor
    update_star_tracker w name q time = update_sensor w name (e.angle_axis q) time

  -- `updateWheels`; `none` is a read of the commands past their end.
  unfoldable pub update_wheels : Linked D E → List D → List D → D → Option (Linked D E)
  update_wheels w speeds commanded_torques dt =
      let monitors = grow w.fdir.wheel_monitors (length speeds) in
      elim (update_loop monitors speeds commanded_torques dt) [
        | none ↦ none
        | some monitors' ↦
            let failed_before = failed_count monitors in
            let failed_after = failed_count monitors' in
            let w' = record w { fdir = record (w.fdir) { wheel_monitors = monitors' } } in
            some (
              if not (failed_after == failed_before) && w.fdir.auto_mode_transition
              then (if failed_after == 1
                  then record w' { mode_manager = force w degraded_mode }
                  else (if leb 2 failed_after
                      then record w' { mode_manager = force w safe }
                      else w'))
              else w')
      ]
