-- ===== src/Fdir/Tests.antt =====
-- Runs of the fault detection on concrete numbers.
use cubesat_fsw_gnc.Prelude.{
  ℕ, ◌+◌, ◌*◌, if◌then◌else◌, ◌≡◌, refl, inl, inr, true, false, List, [], ◌∷◌, Option, some, arith,
}
use cubesat_fsw_gnc.Prelude.Int.{pos}
use cubesat_fsw_gnc.Eigen.{Vector3}
use cubesat_fsw_gnc.Fixed.{Fixed, nan, num, one, fixed_double, fixed_eigen}
use cubesat_fsw_gnc.Core.ModeManager.{
  ModeManager, safe, degraded as degraded_mode, default_config, force_mode_change,
}
use cubesat_fsw_gnc.Gnc.Interfaces.{Estimator}
use cubesat_fsw_gnc.Fdir.Health.{healthy, failed}
use cubesat_fsw_gnc.Fdir.Monitor
use cubesat_fsw_gnc.Fdir.Monitor.{SensorHealthMonitor, update, vector3_measure, double_measure}
use cubesat_fsw_gnc.Fdir.Monitor.Laws.{update-IsBlind}
use cubesat_fsw_gnc.Fdir.Monitor.Trace.{run, observed, run-observed}
use cubesat_fsw_gnc.Fdir.Wheels
use cubesat_fsw_gnc.Fdir.Wheels.{grow, WheelHealthData, update_loop, fresh_wheel, failed_count}
use cubesat_fsw_gnc.Fdir.Wheels.Bounds.{update_loop_iff, InBounds}
use cubesat_fsw_gnc.Fdir.Wheels.Stall.{run_wheel, ten_stalls_fail}
use cubesat_fsw_gnc.Fdir.Manager.{FdirManager, get_sensor_status, is_critical_sensor, is_member}
use cubesat_fsw_gnc.Fdir.Actions.{Linked, update_sensor, update_wheels}
use cubesat_fsw_gnc.Fdir.Actions.Modes.{mode_of, update_sensor-IsBlind}
use cubesat_fsw_gnc.Fdir.Actions.Pairs.{IsLinked, respond_all, respond_all-pair}
use cubesat_fsw_gnc.Fdir.Actions.WheelModes.{Answers, update_wheels-Answers}
use cubesat_fsw_gnc.Prelude.Dict.{lookup}
use cubesat_fsw_gnc.Fdir.Actions.Groups.{fail_all, fresh_pair, fail_all-active, primary_first}

abbrev start : ModeManager Fixed
start = record {
  current_mode = safe;
  previous_mode = safe;
  config = default_config;
  time_in_current_mode = num (pos 0);
  callback = false;
  calls = [];
}

-- A filter that counts its resets.
instance abbrev counting : Estimator Fixed ℕ
counting = record {
  update = λ n s dt. n;
  get_attitude = λ n. record { w = num (pos one); x = nan; y = nan; z = nan };
  get_angular_velocity = λ n. record { x = nan; y = nan; z = nan };
  reset = λ n. n + 1;
}

abbrev units : ℕ → Fixed
units n = num (pos (n * one))

abbrev gyro : SensorHealthMonitor Fixed Fixed
gyro = record {
  current_status = failed;
  measurement_history = units 3 ∷ [];
  time_history = units 0 ∷ [];
  stuck_tolerance = num (pos 1000);
  stuck_sample_count = 2;
  stuck_count = 4;
  min_value = units 0;
  max_value = units 10;
  max_change_per_sample = units 1;
  enable_stuck_detection = true;
  enable_range_detection = true;
  enable_rapid_change_detection = true;
  on_status_change = true;
}

abbrev frozen : List (Fixed × Fixed)
frozen = (units 5, units 2) ∷ (units 5, units 1) ∷ (units 5, units 0) ∷ []

frozen_fails : (run (Monitor.reset gyro) frozen).current_status ≡ failed
unfolding run Monitor.reset Monitor.update Monitor.settle Monitor.detect Monitor.add_to_history
frozen_fails = refl

update-IsBlind_example : (update gyro nan (units 1)).0.current_status ≡ healthy
update-IsBlind_example =
    update-IsBlind gyro nan (units 1)
      (record { low = refl; high = refl; same = λ b. refl; jump = λ b. refl })

run-observed_example : run (Monitor.reset gyro) frozen ≡ observed gyro frozen
run-observed_example = run-observed gyro frozen

-- A wheel at 10 rad/s, commanded with 1 Nm.
abbrev stuck_wheel : WheelHealthData Fixed
stuck_wheel = record {
  last_speed = units 10;
  stuck_count = 3;
  degraded_count = 0;
  status = healthy;
}

abbrev idle_cycles : List (Fixed × Fixed)
idle_cycles =
    (units 10, units 1)
    ∷ (units 10, units 1)
    ∷ (units 10, units 1)
    ∷ (units 10, units 1)
    ∷ (units 10, units 1)
    ∷ (units 10, units 1)
    ∷ (units 10, units 1)
    ∷ (units 10, units 1)
    ∷ (units 10, units 1)
    ∷ (units 10, units 1)
    ∷ []

ten_stalls_fail_example :
    (v : WheelHealthData Fixed) × (run_wheel stuck_wheel idle_cycles (units 1) ≡ some v)
    × (v.status ≡ failed)
unfolding Wheels.check_torque Wheels.check_stuck Wheels.check_degraded
ten_stalls_fail_example =
    ten_stalls_fail stuck_wheel idle_cycles (units 1)
      (record { stuck = λ e. absurd (ground (arith, e)); weak = λ e. absurd (ground (arith, e)) })
      (ground arith) (omega arith)

abbrev wheels : List (WheelHealthData Fixed)
wheels = stuck_wheel ∷ record stuck_wheel { status = failed } ∷ []

abbrev wheels_after : List (WheelHealthData Fixed)
wheels_after =
    record stuck_wheel { last_speed = units 99; status = failed }
    ∷ record stuck_wheel { status = failed }
    ∷ []

-- The first speed is saturated, so its command is not read.
loop_runs : update_loop wheels (units 99 ∷ []) [] (units 1) ≡ some wheels_after
unfolding update_loop Wheels.update_wheel
loop_runs = refl

update_loop_iff_example :
    (InBounds wheels (units 1 ∷ []) []
      → (vs : List (WheelHealthData Fixed)) × (update_loop wheels (units 1 ∷ []) [] (units 1)
          ≡ some vs))
    × ((vs : List (WheelHealthData Fixed))
        → update_loop wheels (units 1 ∷ []) [] (units 1) ≡ some vs
        → InBounds wheels (units 1 ∷ []) [])
update_loop_iff_example = update_loop_iff wheels (units 1 ∷ []) [] (units 1)

abbrev vector_gyro : SensorHealthMonitor Fixed (Vector3 Fixed)
vector_gyro = record {
  current_status = failed;
  measurement_history = [];
  time_history = [];
  stuck_tolerance = num (pos 1000);
  stuck_sample_count = 2;
  stuck_count = 4;
  min_value = units 0;
  max_value = units 10;
  max_change_per_sample = units 1;
  enable_stuck_detection = true;
  enable_range_detection = true;
  enable_rapid_change_detection = true;
  on_status_change = true;
}

abbrev manager : FdirManager Fixed
manager = record {
  vector_monitors = ("gyro_primary", vector_gyro) ∷ [];
  redundancy_groups = ("gyro", fresh_pair "gyro_primary" "gyro_backup") ∷ [];
  sensor_to_group = ("gyro_primary", "gyro") ∷ ("gyro_backup", "gyro") ∷ [];
  wheel_monitors = fresh_wheel ∷ fresh_wheel ∷ fresh_wheel ∷ fresh_wheel ∷ [];
  auto_mekf_reset = true;
  auto_mode_transition = true;
  critical_sensors = "gyro" ∷ "gyro_primary" ∷ "gyro_backup" ∷ [];
}

abbrev linked : Linked Fixed ℕ
linked = record { fdir = manager; mode_manager = some start; mekf = some 0 }

fail_all-active_example :
    (fail_all ("a" ∷ "p" ∷ "b" ∷ []) (fresh_pair "p" "b")).active
    ≡ (if primary_first "p" "b" ("a" ∷ "p" ∷ "b" ∷ []) then "b" else "p")
fail_all-active_example = fail_all-active "p" "b" ("a" ∷ "p" ∷ "b" ∷ [])

manager-IsLinked : IsLinked manager "gyro" "gyro_primary" "gyro_backup"
unfolding lookup is_critical_sensor is_member
manager-IsLinked = record {
  primary_in = refl;
  backup_in = refl;
  primary_critical = refl;
  backup_critical = refl;
  transitions = refl;
  resets = refl;
}

-- The primary fails, and then the backup.
respond_all-pair_example :
    let w' = respond_all linked ("gyro_primary" ∷ "gyro_backup" ∷ []) in
    (mode_of w' ≡ safe) × (w'.mekf ≡ some 1)
unfolding lookup
respond_all-pair_example =
    respond_all-pair linked "gyro" "gyro_primary" "gyro_backup" start "gyro_primary"
      ("gyro_backup" ∷ []) manager-IsLinked refl refl refl (inl refl, (inr refl, tt))

update_sensor-IsBlind_example :
    let w' = update_sensor linked "gyro_primary" (record { x = nan; y = nan; z = nan }) (units 1) in
    (get_sensor_status w'.fdir "gyro_primary" ≡ healthy)
    × (w'.mode_manager ≡ some start)
    × (w'.mekf ≡ some 0)
    × (w'.fdir.redundancy_groups ≡ manager.redundancy_groups)
unfolding lookup
update_sensor-IsBlind_example =
    update_sensor-IsBlind linked "gyro_primary" (record { x = nan; y = nan; z = nan }) (units 1)
      vector_gyro refl (record { low = refl; high = refl; same = λ b. refl; jump = λ b. refl })

abbrev saturated_world : Linked Fixed ℕ
saturated_world = record linked {
  fdir = record manager {
    wheel_monitors =
        record fresh_wheel { last_speed = units 99; status = failed }
        ∷ fresh_wheel
        ∷ fresh_wheel
        ∷ fresh_wheel
        ∷ [];
  };
  mode_manager = some (record start { current_mode = degraded_mode });
}

one_wheel_fails : update_wheels linked (units 99 ∷ []) [] (units 1) ≡ some saturated_world
unfolding update_wheels update_loop Wheels.update_wheel grow failed_count force_mode_change
one_wheel_fails = refl

update_wheels-Answers_example :
    Answers start 0 1 (some (record start { current_mode = degraded_mode }))
    × (◌≡◌ {A = Option ℕ} (some 0) (some 0))
    × (manager.vector_monitors ≡ manager.vector_monitors)
    × (manager.redundancy_groups ≡ manager.redundancy_groups)
unfolding failed_count
update_wheels-Answers_example =
    update_wheels-Answers linked saturated_world (units 99 ∷ []) [] (units 1) start refl refl
      one_wheel_fails
