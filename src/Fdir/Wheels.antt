-- ===== src/Fdir/Wheels.antt =====
-- `updateWheels`, `getWheelStatus` and `getFailedWheelCount` of src/fsw/fdir/FDIRManager.cpp: the
-- reaction wheel monitors. A read of `commanded_torques` past its end is `none`, since it is
-- undefined in C++. Counters are unbounded numbers.
pub mod Latch
pub mod Bounds
pub mod Stall
use cubesat_fsw_gnc.Prelude.{
  ℕ, zero, suc, ◌+◌, ◌-◌, ◌≡◌, Bool, true, false, not, ◌&&◌, List, [], ◌∷◌, ◌++◌, Option, none,
  some, if◌then◌else◌, leb, ltb, length, get_elem?, replicate,
}
use cubesat_fsw_gnc.Double.{Double, lit, ◌⊖◌, ◌⊗◌, ◌⊘◌, ◌≺◌, ◌≼◌}
use cubesat_fsw_gnc.Fdir.Health.{HealthStatus, healthy, degraded, failed, same_status}

pub record WheelHealthData (D : Type 0) : Type 0 where
  pub last_speed : D
  pub stuck_count : ℕ
  pub degraded_count : ℕ
  pub status : HealthStatus

-- The loop's reads of a vector, one index after another.
abbrev pub head? {ℓ} : {A : Type ℓ} → List A → Option A
head? [] = none
head? (x ∷ xs) = some x

abbrev pub tail {ℓ} : {A : Type ℓ} → List A → List A
tail [] = []
tail (x ∷ xs) = xs

-- `getFailedWheelCount`
unfoldable pub failed_count : {D : Type 0} → List (WheelHealthData D) → ℕ
failed_count [] = 0
failed_count (w ∷ ws) =
    let rest = failed_count ws in if same_status w.status failed then rest + 1 else rest

module _ {D : Type 0} ⦃d : Double D⦄ where
  abbrev pub fresh_wheel : WheelHealthData D
  fresh_wheel = record {
    last_speed = lit 0 0;
    stuck_count = 0;
    degraded_count = 0;
    status = healthy;
  }

  -- `wheel_monitors_.resize(n)` under the guard of `updateWheels`, which never shrinks it.
  unfoldable pub grow : List (WheelHealthData D) → ℕ → List (WheelHealthData D)
  grow ws n = if ltb (length ws) n then ws ++ replicate (n - length ws) fresh_wheel else ws

  -- Section 2 of the loop: a command without acceleration counts up to a stuck wheel.
  unfoldable pub check_stuck : WheelHealthData D → D → D → WheelHealthData D
  check_stuck w accel expected_accel =
      if d.abs accel ≺ (lit 5 2 ⊗ d.abs expected_accel)
      then record w {
        stuck_count = w.stuck_count + 1;
        status = if leb 10 (w.stuck_count + 1) then failed else w.status;
      }
      else record w { stuck_count = 0 }

  -- Section 3: too little acceleration counts up to a degraded wheel.
  unfoldable pub check_degraded : WheelHealthData D → D → D → WheelHealthData D
  check_degraded w accel expected_accel =
      if ((lit 5 2 ⊗ d.abs expected_accel) ≺ d.abs accel)
        && (d.abs accel ≺ (lit 5 1 ⊗ d.abs expected_accel))
      then record w {
        degraded_count = w.degraded_count + 1;
        status =
            if leb 15 (w.degraded_count + 1) && same_status w.status healthy
            then degraded
            else w.status;
      }
      else record w { degraded_count = 0 }

  abbrev pub saturated : D → Bool
  saturated speed = lit 95 0 ≼ d.abs speed

  -- Sections 2 and 3, for a wheel that is not saturated.
  unfoldable pub check_torque : WheelHealthData D → D → D → D → WheelHealthData D
  unfolding check_stuck check_degraded
  check_torque w speed accel command =
      let expected_torque = command ⊖ (lit 1 4 ⊗ speed) in
      let expected_accel = expected_torque ⊘ lit 1 3 in
      if lit 2 3 ≺ d.abs expected_torque
      then check_degraded (check_stuck w accel expected_accel) accel expected_accel
      else record w { stuck_count = 0; degraded_count = 0 }

  -- The body of the loop for one wheel; `none` is a read past the end of the commands.
  unfoldable pub update_wheel : WheelHealthData D → D → Option D → D → Option (WheelHealthData D)
  update_wheel w speed command dt =
      let accel = (speed ⊖ w.last_speed) ⊘ dt in
      let w' = record w { last_speed = speed } in
      if saturated speed
      then some (record w' { status = failed })
      else elim command [ none ↦ none | some c ↦ some (check_torque w' speed accel c) ]

  -- The loop over the speeds. A speed has a monitor, since the monitors were grown before.
  unfoldable pub update_loop :
      List (WheelHealthData D) → List D → List D → D → Option (List (WheelHealthData D))
  update_loop ws [] commands dt = some ws
  update_loop [] (speed ∷ speeds) commands dt = none
  update_loop (w ∷ ws) (speed ∷ speeds) commands dt =
      let rest = update_loop ws speeds (tail commands) dt in
      elim (update_wheel w speed (head? commands) dt) [
        | none ↦ none
        | some w' ↦ elim rest [ none ↦ none | some ws' ↦ some (w' ∷ ws') ]
      ]

-- `getWheelStatus`
unfoldable pub wheel_status : {D : Type 0} → List (WheelHealthData D) → ℕ → HealthStatus
wheel_status ws i = elim (get_elem? ws i) [ none ↦ failed | some w ↦ w.status ]
