-- ===== src/Fdir/Monitor/Laws.antt =====
-- One call of `SensorHealthMonitor::update` (src/fsw/fdir/SensorHealthMonitor.hpp).
use cubesat_fsw_gnc.Prelude.{◌≡◌, refl, false, List, [], ◌∷◌, none, some, arith, if◌then◌else◌}
use cubesat_fsw_gnc.Double.{Double, ◌≺◌}
use cubesat_fsw_gnc.Fdir.Health.{HealthStatus, healthy, same_status, eq_of_same_status}
use cubesat_fsw_gnc.Fdir.Monitor.{
  Measure, SensorHealthMonitor, update, detect, add_to_history, settle,
}

module _ {D T : Type 0} ⦃d : Double D⦄ ⦃k : Measure D T⦄ where
  -- A measurement that compares with no threshold, as one with a NaN coordinate does.
  pub record IsBlind (s : SensorHealthMonitor D T) (a : T) : Type 0 where
    pub low : k.compute_magnitude a ≺ s.min_value ≡ false
    pub high : s.max_value ≺ k.compute_magnitude a ≡ false
    pub same : (b : T) → k.compute_difference a b ≺ s.stuck_tolerance ≡ false
    pub jump : (b : T) → s.max_change_per_sample ≺ k.compute_difference a b ≡ false

  detect-IsBlind :
      (s : SensorHealthMonitor D T) (a : T) (xs : List T)
      → s.measurement_history ≡ xs
      → IsBlind s a
      → (detect s a).0 ≡ healthy
  unfolding detect
  detect-IsBlind s a [] e h = ground (arith, h.low, h.high)
  detect-IsBlind s a (b ∷ []) e h = ground (arith, h.low, h.high)
  detect-IsBlind s a (b ∷ c ∷ xs) e h = ground (arith, h.low, h.high, h.same c, h.jump c)

  settle-status : (p : HealthStatus × SensorHealthMonitor D T) → (settle p).0.current_status ≡ p.0
  unfolding settle
  settle-status (status, s) = ground (arith, eq_of_same_status status s.current_status)

  history_IsBlind :
      (s : SensorHealthMonitor D T) (a : T) (time : D)
      → IsBlind s a
      → IsBlind (add_to_history s a time) a
  unfolding add_to_history
  history_IsBlind s a time h = record { low = h.low; high = h.high; same = h.same; jump = h.jump }

  -- A measurement that compares with no threshold makes any sensor healthy, a failed one too, so the
  -- range check lets a NaN reading pass.
  pub update-IsBlind :
      (s : SensorHealthMonitor D T) (a : T) (time : D)
      → IsBlind s a
      → (update s a time).0.current_status ≡ healthy
  unfolding update
  update-IsBlind s a time h =
      rw (settle-status (detect (add_to_history s a time) a))
        (detect-IsBlind (add_to_history s a time) a _ refl (history_IsBlind s a time h))

  detect_keeps :
      (s : SensorHealthMonitor D T) (a : T) (xs : List T)
      → s.measurement_history ≡ xs
      → ((detect s a).1.current_status ≡ s.current_status)
        × ((detect s a).1.on_status_change ≡ s.on_status_change)
  unfolding detect
  detect_keeps s a [] e = ground arith
  detect_keeps s a (b ∷ []) e = ground arith
  detect_keeps s a (b ∷ c ∷ xs) e = ground arith

  history_keeps :
      (s : SensorHealthMonitor D T) (a : T) (time : D)
      → ((add_to_history s a time).current_status ≡ s.current_status)
        × ((add_to_history s a time).on_status_change ≡ s.on_status_change)
  unfolding add_to_history
  history_keeps s a time = (refl, refl)

  settle_reports :
      (p : HealthStatus × SensorHealthMonitor D T)
      → (settle p).1 ≡ (
          if same_status p.0 p.1.current_status
          then none
          else (if p.1.on_status_change then some p.0 else none))
  unfolding settle
  settle_reports (status, s) = ground arith

  -- A registered callback is called exactly when the status changes, with the new status.
  pub update_reports :
      (s : SensorHealthMonitor D T) (a : T) (time : D)
      → let (s', report) = update s a time in
        report ≡ (
          if same_status s'.current_status s.current_status
          then none
          else (if s.on_status_change then some s'.current_status else none))
  unfolding update
  update_reports s a time =
      let s1 : SensorHealthMonitor D T = add_to_history s a time in
      ground (
        arith,
        settle-status (detect s1 a),
        settle_reports (detect s1 a),
        detect_keeps s1 a _ refl,
        history_keeps s a time,
      )
