-- ===== src/Fdir/Actions/Modes.antt =====
-- How a sensor's health moves the mission mode and the filter (src/fsw/fdir/FDIRManager.cpp,
-- `executeResponseActions`).
use Prim.Native.String.{String}
use cubesat_fsw_gnc.Prelude.{◌≡◌, refl, ◌⊎◌, true, Option, none, some, arith, if◌then◌else◌}
use cubesat_fsw_gnc.Prelude.Dict.{lookup, insert, lookup-insert_self}
use cubesat_fsw_gnc.Double.{Double}
use cubesat_fsw_gnc.Core.ModeManager.{
  ModeManager, MissionMode, safe, nominal, degraded as degraded_mode, same_mode, force_mode_change,
}
use cubesat_fsw_gnc.Gnc.Interfaces.{Estimator}
use cubesat_fsw_gnc.Fdir.Health.{HealthStatus, healthy, degraded, failed}
use cubesat_fsw_gnc.Fdir.Monitor
use cubesat_fsw_gnc.Fdir.Monitor.{SensorHealthMonitor, vector3_measure}
use cubesat_fsw_gnc.Fdir.Monitor.Laws.{IsBlind, update-IsBlind, update_reports}
use cubesat_fsw_gnc.Eigen.{Eigen, Vector3}
use cubesat_fsw_gnc.Fdir.Manager.{FdirManager, get_sensor_status}
use cubesat_fsw_gnc.Fdir.Actions.{Linked, execute_response_actions, update_sensor}

module _ {D : Type 0} ⦃d : Double D⦄ ⦃e : Eigen D⦄ where
  report-IsBlind :
      (s : SensorHealthMonitor D (Vector3 D)) (a : Vector3 D) (time : D)
      → IsBlind s a
      → ((Monitor.update s a time).1 ≡ none) ⊎ ((Monitor.update s a time).1 ≡ some healthy)
  report-IsBlind s a time h = ground (arith, update_reports s a time, update-IsBlind s a time h)

module _ {D E : Type 0} ⦃d : Double D⦄ ⦃est : Estimator D E⦄ where
  -- The mode of the manager, SAFE if there is none.
  abbrev pub mode_of : Linked D E → MissionMode
  mode_of w = elim w.mode_manager [ none ↦ safe | some m ↦ m.current_mode ]

  -- With a mode manager and automatic transitions on, a degraded sensor moves NOMINAL to DEGRADED
  -- and no other mode, and changes nothing else.
  pub execute_response_actions_degraded :
      (w : Linked D E) (name : String) (m : ModeManager D)
      → w.mode_manager ≡ some m
      → w.fdir.auto_mode_transition ≡ true
      → execute_response_actions w name degraded ≡ record w {
        mode_manager =
            some
              (if same_mode m.current_mode nominal then force_mode_change m degraded_mode else m);
      }
  unfolding execute_response_actions
  execute_response_actions_degraded w name m em et = ground arith

  module _ ⦃e : Eigen D⦄ where
    quiet :
        (w : Linked D E) (name : String) (report : Option HealthStatus)
        → (report ≡ none) ⊎ (report ≡ some healthy)
        → elim report [ none ↦ w | some status ↦ execute_response_actions w name status ] ≡ w
    unfolding execute_response_actions
    quiet w name none h = refl
    quiet w name (some healthy) h = refl
    quiet w name (some degraded) h = absurd (ground arith)
    quiet w name (some failed) h = absurd (ground arith)

    -- A measurement of a known sensor that compares with no threshold, as one with NaN does, leaves
    -- the sensor HEALTHY, and the mode, the filter and the redundancy groups as they were.
    pub update_sensor-IsBlind :
        (w : Linked D E) (name : String) (a : Vector3 D) (time : D)
        (s : SensorHealthMonitor D (Vector3 D))
        → lookup name w.fdir.vector_monitors ≡ some s
        → IsBlind s a
        → let w' = update_sensor w name a time in
          (get_sensor_status w'.fdir name ≡ healthy)
          × (w'.mode_manager ≡ w.mode_manager)
          × (w'.mekf ≡ w.mekf)
          × (w'.fdir.redundancy_groups ≡ w.fdir.redundancy_groups)
    unfolding update_sensor get_sensor_status
    update_sensor-IsBlind w name a time s e h =
        let s' : SensorHealthMonitor D (Vector3 D) = (Monitor.update s a time).0 in
        let f : FdirManager D = record (w.fdir) {
          vector_monitors = insert name s' w.fdir.vector_monitors;
        } in
        rw (e, update_sensor, quiet (record w { fdir = f }) name _ (report-IsBlind s a time h))
          (
            rw (get_sensor_status, lookup-insert_self name s' w.fdir.vector_monitors)
                (update-IsBlind s a time h),
            refl,
            refl,
            refl,
          )
