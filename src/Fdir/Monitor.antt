-- ===== src/Fdir/Monitor.antt =====
-- src/fsw/fdir/SensorHealthMonitor.hpp: detection of stuck, out-of-range and jumping sensors.
-- A deque is a list with its back first. Fault messages and logging are left out; `update` returns
-- the status handed to the registered callback. Counters are unbounded numbers: an `int` counter
-- would need 2^31 samples to overflow.
pub mod Laws
pub mod Trace
use cubesat_fsw_gnc.Prelude.{
  ℕ, ◌+◌, ◌≡◌, Bool, true, false, not, ◌&&◌, ◌||◌, List, [], ◌∷◌, Option, none, some, if◌then◌else◌,
  ltb, leb, length,
}
use cubesat_fsw_gnc.Double.{Double, lit, ◌⊗◌, ◌≺◌}
use cubesat_fsw_gnc.Eigen.{Eigen, Vector3}
use cubesat_fsw_gnc.Fdir.Health.{HealthStatus, healthy, degraded, failed, same_status}

-- The template specialisations of computeMagnitude and computeDifference.
pub record Measure (D T : Type 0) : Type 0 where
  pub compute_magnitude : T → D
  pub compute_difference : T → T → D

instance abbrev pub vector3_measure : {D : Type 0} ⦃e : Eigen D⦄ → Measure D (Vector3 D)
vector3_measure ⦃e⦄ = record {
  compute_magnitude = e.norm;
  compute_difference = λ a b. e.norm (e.sub a b);
}

instance abbrev pub double_measure : {D : Type 0} ⦃d : Double D⦄ → Measure D D
double_measure ⦃d⦄ = record {
  compute_magnitude = d.abs;
  compute_difference = λ a b. d.abs (d.sub a b);
}

pub record SensorHealthMonitor (D T : Type 0) : Type 0 where
  pub current_status : HealthStatus
  pub measurement_history : List T
  pub time_history : List D
  pub stuck_tolerance : D
  pub stuck_sample_count : ℕ
  pub stuck_count : ℕ
  pub min_value : D
  pub max_value : D
  pub max_change_per_sample : D
  pub enable_stuck_detection : Bool
  pub enable_range_detection : Bool
  pub enable_rapid_change_detection : Bool
  pub on_status_change : Bool

abbrev pub max_history : ℕ
max_history = 100

-- `pop_front`
unfoldable pub pop_front {ℓ} : {A : Type ℓ} → List A → List A
pop_front [] = []
pop_front (x ∷ []) = []
pop_front (x ∷ y ∷ r) = x ∷ pop_front (y ∷ r)

-- `measurement_history_[size - 2]`, if there are two measurements.
unfoldable pub previous {ℓ} : {A : Type ℓ} → List A → Option A
previous [] = none
previous (x ∷ []) = none
previous (x ∷ y ∷ r) = some y

module _ {D T : Type 0} ⦃d : Double D⦄ where
  unfoldable pub init : SensorHealthMonitor D T
  init = record {
    current_status = healthy;
    measurement_history = [];
    time_history = [];
    stuck_tolerance = lit 1 6;
    stuck_sample_count = 50;
    stuck_count = 0;
    min_value = lit 0 0;
    max_value = lit 1_000_000_000 0;
    max_change_per_sample = lit 1_000_000_000 0;
    enable_stuck_detection = true;
    enable_range_detection = true;
    enable_rapid_change_detection = true;
    on_status_change = false;
  }

  unfoldable pub set_stuck_threshold : SensorHealthMonitor D T → D → ℕ → SensorHealthMonitor D T
  set_stuck_threshold s tolerance count = record s {
    stuck_tolerance = tolerance;
    stuck_sample_count = count;
  }

  unfoldable pub set_range_thresholds : SensorHealthMonitor D T → D → D → SensorHealthMonitor D T
  set_range_thresholds s low high = record s { min_value = low; max_value = high }

  unfoldable pub set_rapid_change_threshold :
      SensorHealthMonitor D T → D → D → SensorHealthMonitor D T
  set_rapid_change_threshold s max_change dt = record s { max_change_per_sample = max_change ⊗ dt }

  unfoldable pub set_status_change_callback : SensorHealthMonitor D T → SensorHealthMonitor D T
  set_status_change_callback s = record s { on_status_change = true }

  unfoldable pub reset : SensorHealthMonitor D T → SensorHealthMonitor D T
  reset s = record s {
    current_status = healthy;
    stuck_count = 0;
    measurement_history = [];
    time_history = [];
  }

  unfoldable pub add_to_history : SensorHealthMonitor D T → T → D → SensorHealthMonitor D T
  add_to_history s a time =
      let measurements = a ∷ s.measurement_history in
      let times = time ∷ s.time_history in
      let full = ltb max_history (length measurements) in
      record s {
        measurement_history = if full then pop_front measurements else measurements;
        time_history = if full then pop_front times else times;
      }

  -- The end of `update`: a changed status is stored, and the option is what a callback receives.
  unfoldable pub settle :
      HealthStatus × SensorHealthMonitor D T → SensorHealthMonitor D T × Option HealthStatus
  settle (status, s) =
      if not (same_status status s.current_status)
      then (record s { current_status = status }, if s.on_status_change then some status else none)
      else (s, none)

  module _ ⦃k : Measure D T⦄ where
    unfoldable pub detect_stuck : SensorHealthMonitor D T → T → Bool × SensorHealthMonitor D T
    unfolding previous
    detect_stuck s a = elim (previous s.measurement_history) [
      | none ↦ (false, s)
      | some b ↦
          if k.compute_difference a b ≺ s.stuck_tolerance
          then (
            leb s.stuck_sample_count (s.stuck_count + 1),
            record s { stuck_count = s.stuck_count + 1 },
          )
          else (false, record s { stuck_count = 0 })
    ]

    unfoldable pub detect_out_of_range : SensorHealthMonitor D T → T → Bool
    detect_out_of_range s a =
        let mag = k.compute_magnitude a in mag ≺ s.min_value || s.max_value ≺ mag

    unfoldable pub detect_rapid_change : SensorHealthMonitor D T → T → Bool
    unfolding previous
    detect_rapid_change s a = elim (previous s.measurement_history) [
      | none ↦ false
      | some b ↦ s.max_change_per_sample ≺ k.compute_difference a b
    ]

    -- The detection strategies in the order of `update`, once the measurement is in the history.
    unfoldable pub detect : SensorHealthMonitor D T → T → HealthStatus × SensorHealthMonitor D T
    unfolding detect_stuck detect_out_of_range detect_rapid_change
    detect s a =
        let (stuck, s') = if s.enable_stuck_detection then detect_stuck s a else (false, s) in
        if stuck
        then (failed, s')
        else (if s'.enable_range_detection && detect_out_of_range s' a
            then (degraded, s')
            else (if s'.enable_rapid_change_detection && detect_rapid_change s' a
                then (degraded, s')
                else (healthy, s')))

    unfoldable pub update :
        SensorHealthMonitor D T → T → D → SensorHealthMonitor D T × Option HealthStatus
    update s a time = settle (detect (add_to_history s a time) a)
