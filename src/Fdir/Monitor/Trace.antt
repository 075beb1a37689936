-- ===== src/Fdir/Monitor/Trace.antt =====
-- The monitor of src/fsw/fdir/SensorHealthMonitor.hpp against a description over whole measurement
-- traces, newest first, that keeps no counter and no bounded buffer.
use cubesat_fsw_gnc.Prelude.{
  ℕ, zero, suc, ◌≤◌, ◌<◌, ◌≡◌, refl, sym, ap, ◌∙◌, inl, inr, Bool, false, ◌&&◌, ◌||◌, List, [], ◌∷◌,
  arith, if◌then◌else◌, ltb, leb, length, take, map, Bool-cases,
}
use cubesat_fsw_gnc.Double.{Double, ◌≺◌}
use cubesat_fsw_gnc.Fdir.Health.{
  HealthStatus, healthy, degraded, failed, same_status, eq_of_same_status,
}
use cubesat_fsw_gnc.Fdir.Monitor.{
  Measure, SensorHealthMonitor, max_history, pop_front, update, detect, add_to_history, reset,
  settle,
}

module _ {ℓ} {A : Type ℓ} where
  pop_front-take :
      (n : ℕ) (xs : List A) → n < length (take (suc n) xs) → pop_front (take (suc n) xs) ≡ take n xs
  unfolding pop_front
  pop_front-take n [] h = absurd (omega arith)
  pop_front-take zero (x ∷ xs) h = refl
  pop_front-take (suc n) (x ∷ []) h = absurd (omega arith)
  pop_front-take (suc n) (x ∷ y ∷ xs) h = ap (◌∷◌ x) (pop_front-take n (y ∷ xs) (omega arith))

  take-short : (n : ℕ) (xs : List A) → length (take (suc n) xs) ≤ n → take (suc n) xs ≡ take n xs
  take-short zero [] h = refl
  take-short (suc n) [] h = refl
  take-short zero (x ∷ xs) h = absurd (omega arith)
  take-short (suc n) (x ∷ xs) h = ap (◌∷◌ x) (take-short n xs (omega arith))

  -- Dropping the front of a deque that has grown past `n` keeps its newest `n` entries.
  clip-take :
      (n : ℕ) (xs : List A)
      → (if ltb n (length (take (suc n) xs)) then pop_front (take (suc n) xs) else take (suc n) xs)
        ≡ take n xs
  clip-take n xs = elim (Bool-cases (ltb n (length (take (suc n) xs)))) [
    | inl h ↦ rw h (pop_front-take n xs (ground arith))
    | inr h ↦ rw h (take-short n xs (ground arith))
  ]

  length-take-eq {κ} :
      {B : Type κ} (n : ℕ) (xs : List A) (f : A → B)
      → length (take n (map f xs)) ≡ length (take n xs)
  length-take-eq zero xs f = refl
  length-take-eq (suc n) [] f = refl
  length-take-eq (suc n) (x ∷ xs) f = ap suc (length-take-eq n xs f)

module _ {D T : Type 0} ⦃d : Double D⦄ ⦃k : Measure D T⦄ where
  -- How many of the newest measurements follow one another within the tolerance.
  pub trailing : D → List T → ℕ
  trailing tolerance [] = 0
  trailing tolerance (a ∷ []) = 0
  trailing tolerance (a ∷ b ∷ r) =
      if k.compute_difference a b ≺ tolerance then suc (trailing tolerance (b ∷ r)) else 0

  abbrev out_of_range : SensorHealthMonitor D T → T → Bool
  out_of_range s a = k.compute_magnitude a ≺ s.min_value || s.max_value ≺ k.compute_magnitude a

  abbrev within : D → List T → Bool
  within tolerance [] = false
  within tolerance (a ∷ []) = false
  within tolerance (a ∷ b ∷ r) = k.compute_difference a b ≺ tolerance

  abbrev jumps : D → List T → Bool
  jumps limit [] = false
  jumps limit (a ∷ []) = false
  jumps limit (a ∷ b ∷ r) = limit ≺ k.compute_difference a b

  -- The health of a sensor, from all its measurements.
  pub health_of : SensorHealthMonitor D T → List T → HealthStatus
  health_of s [] = healthy
  health_of s (a ∷ r) =
      if s.enable_stuck_detection
        && (within s.stuck_tolerance (a ∷ r)
            && leb s.stuck_sample_count (trailing s.stuck_tolerance (a ∷ r)))
      then failed
      else (if (s.enable_range_detection && out_of_range s a)
            || (s.enable_rapid_change_detection && jumps s.max_change_per_sample (a ∷ r))
          then degraded
          else healthy)

  unfoldable pub run : SensorHealthMonitor D T → List (T × D) → SensorHealthMonitor D T
  run s [] = s
  run s ((a, time) ∷ older) = (update (run s older) a time).0

  -- The monitor that the trace describes.
  pub observed : SensorHealthMonitor D T → List (T × D) → SensorHealthMonitor D T
  unfolding trailing health_of
  observed s ms = record s {
    current_status = health_of s (map (λ m. m.0) ms);
    measurement_history = take max_history (map (λ m. m.0) ms);
    time_history = take max_history (map (λ m. m.1) ms);
    stuck_count =
        if s.enable_stuck_detection then trailing s.stuck_tolerance (map (λ m. m.0) ms) else 0;
  }

  add_to_history-observed :
      (s : SensorHealthMonitor D T) (a : T) (time : D) (ms : List (T × D))
      → add_to_history (observed s ms) a time ≡ record (observed s ms) {
        measurement_history = take max_history (a ∷ map (λ m. m.0) ms);
        time_history = take max_history (time ∷ map (λ m. m.1) ms);
      }
  unfolding add_to_history observed
  add_to_history-observed s a time ms =
      λ i. record (observed s ms) { measurement_history = values i; time_history = times i }
    where
      values :
          (if ltb max_history (length (a ∷ take max_history (map (λ m. m.0) ms)))
            then pop_front (a ∷ take max_history (map (λ m. m.0) ms))
            else a ∷ take max_history (map (λ m. m.0) ms))
          ≡ take max_history (a ∷ map (λ m. m.0) ms)
      values = clip-take max_history (a ∷ map (λ m. m.0) ms)

      lengths :
          length (take max_history (map (λ m. m.0) ms))
          ≡ length (take max_history (map (λ m. m.1) ms))
      lengths =
          length-take-eq max_history ms (λ m. m.0) ∙ sym (length-take-eq max_history ms (λ m. m.1))

      times :
          (if ltb max_history (length (a ∷ take max_history (map (λ m. m.0) ms)))
            then pop_front (time ∷ take max_history (map (λ m. m.1) ms))
            else time ∷ take max_history (map (λ m. m.1) ms))
          ≡ take max_history (time ∷ map (λ m. m.1) ms)
      times = rw lengths (clip-take max_history (time ∷ map (λ m. m.1) ms))

  detect-trace :
      (s : SensorHealthMonitor D T) (a : T) (xs : List T)
      → s.measurement_history ≡ take max_history (a ∷ xs)
      → (s.stuck_count ≡ (if s.enable_stuck_detection then trailing s.stuck_tolerance xs else 0))
      → detect s a ≡ (
        health_of s (a ∷ xs),
        record s {
          stuck_count = if s.enable_stuck_detection then trailing s.stuck_tolerance (a ∷ xs) else 0;
        },
      )
  unfolding detect trailing health_of
  detect-trace s a [] h c = ground arith
  detect-trace s a (b ∷ xs) h c = ground arith

  settle_lem :
      (p : HealthStatus × SensorHealthMonitor D T)
      → (settle p).0 ≡ record (p.1) { current_status = p.0 }
  unfolding settle
  settle_lem (status, s) = elim (Bool-cases (same_status status s.current_status)) [
    | inl h ↦
        rw h
          (λ i. record s { current_status = sym (eq_of_same_status status s.current_status h) i })
    | inr h ↦ rw h
  ]

  update-observed :
      (s : SensorHealthMonitor D T) (a : T) (time : D) (ms : List (T × D))
      → (update (observed s ms) a time).0 ≡ observed s ((a, time) ∷ ms)
  unfolding update observed
  update-observed s a time ms =
      ap (λ r. (settle (detect r a)).0) (add_to_history-observed s a time ms)
      ∙ ap (λ p. (settle p).0) (detect-trace _ a (map (λ m. m.0) ms) refl refl)
      ∙ settle_lem _

  reset-observed : (s : SensorHealthMonitor D T) → reset s ≡ observed s []
  unfolding reset observed
  reset-observed s = ground arith

  -- After a reset, any trace of measurements leaves the monitor exactly as the trace describes it:
  -- the health is the one that the stuck, range and jump rules give over the whole trace, the
  -- counter is the length of the run of unchanged samples if stuck detection is on and 0 if not,
  -- and the buffers hold the newest 100 entries.
  pub run-observed :
      (s : SensorHealthMonitor D T) (ms : List (T × D)) → run (reset s) ms ≡ observed s ms
  unfolding run
  run-observed s [] = reset-observed s
  run-observed s ((a, time) ∷ ms) =
      ap (λ r. (update r a time).0) (run-observed s ms) ∙ update-observed s a time ms
