-- ===== src/Fdir/Manager.antt =====
-- src/fsw/fdir/FDIRManager.hpp and FDIRManager.cpp: registration, health aggregation.
-- The maps are association lists. Logging is left out.
pub mod Summary
use Prim.Native.String.{String}
use text.Mathlib.Text.{◌==◌ as str_eq}
use mathlib.Core.Option
use cubesat_fsw_gnc.Prelude.{
  ℕ, ◌+◌, ◌≡◌, Bool, true, false, not, ◌&&◌, ◌||◌, List, [], ◌∷◌, Option, none, some, if◌then◌else◌,
  ◌==◌, leb, length, replicate, map,
}
use cubesat_fsw_gnc.Prelude.Dict.{lookup, insert}
use cubesat_fsw_gnc.Double.{Double, lit}
use cubesat_fsw_gnc.Eigen.{Eigen, Vector3, Quaternion}
use cubesat_fsw_gnc.Core.ModeManager.{
  ModeManager, MissionMode, safe, nominal, degraded as degraded_mode, same_mode, force_mode_change,
}
use cubesat_fsw_gnc.Gnc.Interfaces.{Estimator}
use cubesat_fsw_gnc.Fdir.Health.{
  HealthStatus, healthy, degraded, failed, same_status, GyroHealthConfig, MagnetometerHealthConfig,
}
use cubesat_fsw_gnc.Fdir.Monitor
use cubesat_fsw_gnc.Fdir.Monitor.{SensorHealthMonitor, vector3_measure}
use cubesat_fsw_gnc.Fdir.Wheels.{WheelHealthData, fresh_wheel, grow, failed_count, update_loop}

pub record RedundancyGroup : Type 0 where
  pub primary : String
  pub backup : String
  pub active : String
  pub backup_available : Bool

abbrev pub Monitors : Type 0 → Type 0
Monitors D = List (String × SensorHealthMonitor D (Vector3 D))

pub record FdirManager (D : Type 0) : Type 0 where
  pub vector_monitors : Monitors D
  pub redundancy_groups : List (String × RedundancyGroup)
  pub sensor_to_group : List (String × String)
  pub wheel_monitors : List (WheelHealthData D)
  pub auto_mekf_reset : Bool
  pub auto_mode_transition : Bool
  pub critical_sensors : List String

-- The counts of HealthSummary.
pub record HealthSummary : Type 0 where
  pub healthy_count : ℕ
  pub degraded_count : ℕ
  pub failed_count : ℕ

abbrev pub count_status : HealthStatus → HealthSummary → HealthSummary
count_status healthy c = record c { healthy_count = c.healthy_count + 1 }
count_status degraded c = record c { degraded_count = c.degraded_count + 1 }
count_status failed c = record c { failed_count = c.failed_count + 1 }

unfoldable pub is_member : String → List String → Bool
is_member name [] = false
is_member name (x ∷ xs) = str_eq x name || is_member name xs

module _ {D : Type 0} ⦃d : Double D⦄ where
  unfoldable pub init : FdirManager D
  init = record {
    vector_monitors = [];
    redundancy_groups = [];
    sensor_to_group = [];
    wheel_monitors = replicate 4 fresh_wheel;
    auto_mekf_reset = true;
    auto_mode_transition = true;
    critical_sensors = "gyro" ∷ "gyro_primary" ∷ "gyro_backup" ∷ [];
  }

module _ {D : Type 0} where
  unfoldable pub register_redundant_pair : FdirManager D → String → String → String → FdirManager D
  register_redundant_pair f group primary backup = record f {
    redundancy_groups =
        insert group
          (record { primary = primary; backup = backup; active = primary; backup_available = true })
          f.redundancy_groups;
    sensor_to_group = insert backup group (insert primary group f.sensor_to_group);
  }

  unfoldable pub get_active_sensor : FdirManager D → String → String
  get_active_sensor f group = elim (lookup group f.redundancy_groups) [
    | none ↦ ""
    | some g ↦ g.active
  ]

  unfoldable pub is_critical_sensor : FdirManager D → String → Bool
  unfolding is_member
  is_critical_sensor f name = is_member name f.critical_sensors

  unfoldable pub get_sensor_status : FdirManager D → String → HealthStatus
  get_sensor_status f name = elim (lookup name f.vector_monitors) [
    | none ↦ failed
    | some s ↦ s.current_status
  ]

  -- The loop of `getSystemHealth`, with the worst status so far.
  unfoldable pub worst_status : HealthStatus → Monitors D → HealthStatus
  worst_status worst [] = worst
  worst_status worst ((name, s) ∷ ms) =
      let rest =
        worst_status (if same_status s.current_status degraded then degraded else worst) ms in
      if same_status s.current_status failed then failed else rest

  unfoldable pub get_system_health : FdirManager D → HealthStatus
  unfolding worst_status
  get_system_health f = worst_status healthy f.vector_monitors

  unfoldable pub summarise : HealthSummary → Monitors D → HealthSummary
  summarise c [] = c
  summarise c ((name, s) ∷ ms) = summarise (count_status s.current_status c) ms

  unfoldable pub get_health_summary : FdirManager D → HealthSummary
  unfolding summarise
  get_health_summary f =
      summarise (record { healthy_count = 0; degraded_count = 0; failed_count = 0 })
        f.vector_monitors

  unfoldable pub enable_auto_mekf_reset : FdirManager D → Bool → FdirManager D
  enable_auto_mekf_reset f enable = record f { auto_mekf_reset = enable }

  unfoldable pub enable_auto_mode_transition : FdirManager D → Bool → FdirManager D
  enable_auto_mode_transition f enable = record f { auto_mode_transition = enable }

module _ {D : Type 0} ⦃d : Double D⦄ where
  -- `registerVector3Sensor`, with the settings that the caller's function makes.
  unfoldable pub register_vector3_sensor :
      FdirManager D
      → String
      → (SensorHealthMonitor D (Vector3 D) → SensorHealthMonitor D (Vector3 D))
      → FdirManager D
  register_vector3_sensor f name config_setter = record f {
    vector_monitors =
        insert name (Monitor.set_status_change_callback (config_setter Monitor.init))
          f.vector_monitors;
  }

  unfoldable pub register_gyro : FdirManager D → String → GyroHealthConfig D → FdirManager D
  unfolding register_vector3_sensor
  register_gyro f name c = register_vector3_sensor f name λ s.
      Monitor.set_rapid_change_threshold
        (Monitor.set_range_thresholds
          (Monitor.set_stuck_threshold s c.stuck_tolerance c.stuck_sample_count) (lit 0 0)
          c.max_rate)
        c.max_rate_change c.dt

  unfoldable pub register_magnetometer :
      FdirManager D → String → MagnetometerHealthConfig D → FdirManager D
  unfolding register_vector3_sensor
  register_magnetometer f name c = register_vector3_sensor f name λ s.
      Monitor.set_rapid_change_threshold
        (Monitor.set_range_thresholds
          (Monitor.set_stuck_threshold s c.stuck_tolerance c.stuck_sample_count) c.min_field
          c.max_field)
        c.max_field_change c.dt

  unfoldable pub reset_all : FdirManager D → FdirManager D
  reset_all f = record f {
    vector_monitors = map (λ m. (m.0, Monitor.reset (m.1))) f.vector_monitors;
  }
