-- ===== src/Gnc/AttitudeController/Gains.antt =====
-- The gains of src/fsw/gnc/control/AttitudeController.hpp over runs of calls.
use cubesat_fsw_gnc.Prelude.{
  Bool, true, false, List, [], ◌∷◌, ◌≡◌, refl, arith, Bool-cases, inl, inr,
}
use cubesat_fsw_gnc.Double.{Double, Libm, lit, ◌≼◌}
use cubesat_fsw_gnc.Eigen.{Eigen, Vector3, vector_zero}
use cubesat_fsw_gnc.Gnc.Interfaces.{SensorData, State, GuidanceTarget}
use cubesat_fsw_gnc.Gnc.Pid
use cubesat_fsw_gnc.Gnc.Pid.{PidConfig, Pid}
use cubesat_fsw_gnc.Gnc.AttitudeController.{
  AttitudeConfig, AttitudeController, init, set_all_gains, set_gains, reset, schedule,
  scheduled_config, pid_torques, apply_rate_limiting, update, compute_gain_factor,
}

-- A call on the controller.
pub data Call (D : Type 0) : Type 0 where
  update_call : SensorData D → State D → GuidanceTarget D → D → Call D
  set_gains_call : D → D → D → Bool → Call D
  reset_call : Call D

module _ {D : Type 0} ⦃d : Double D⦄ where
  config-calculate : (p : Pid D) (error dt : D) → (Pid.calculate p error dt).0.config ≡ p.config
  unfolding Pid.calculate
  config-calculate p error dt = ground arith

  -- The three axes have the same gains and limits.
  unfoldable pub IsUniform : AttitudeController D → Type 0
  IsUniform c = (c.pid_roll.config ≡ c.pid_pitch.config) × (c.pid_pitch.config ≡ c.pid_yaw.config)

  set_all_gains-IsUniform :
      (c : AttitudeController D) (kp ki kd : D) → IsUniform c → IsUniform (set_all_gains c kp ki kd)
  unfolding IsUniform set_all_gains Pid.set_gains
  set_all_gains-IsUniform c kp ki kd (a, b) = (
    λ i. record (a i) { kp = kp; ki = ki; kd = kd },
    λ i. record (b i) { kp = kp; ki = ki; kd = kd },
  )

module _ {D : Type 0} ⦃d : Double D⦄ ⦃e : Eigen D⦄ ⦃libm : Libm D⦄ where
  -- The new controller and what the call returns, the zero vector if it returns nothing.
  unfoldable pub call : Call D → AttitudeController D → AttitudeController D × Vector3 D
  call (update_call sensors state target dt) c = update c sensors state target dt
  call (set_gains_call kp ki kd is_nominal) c = (set_gains c kp ki kd is_nominal, vector_zero)
  call reset_call c = (reset c, vector_zero)

  unfoldable pub run : List (Call D) → AttitudeController D → AttitudeController D
  run [] c = c
  run (k ∷ ks) c = run ks (call k c).0

  -- What a run of calls returns.
  unfoldable pub results : List (Call D) → AttitudeController D → List (Vector3 D)
  results [] c = []
  results (k ∷ ks) c = let (new, result) = call k c in result ∷ results ks new

  apply_rate_limiting-IsUniform :
      (c : AttitudeController D) (v : Vector3 D) (dt : D)
      → IsUniform c
      → IsUniform (apply_rate_limiting c v dt).0
  unfolding IsUniform apply_rate_limiting
  apply_rate_limiting-IsUniform c v dt u = elim (Bool-cases (dt ≼ lit 0 0)) [
    | inl h ↦ rw h u
    | inr h ↦ rw h u
  ]

  pid_torques-IsUniform :
      (c : AttitudeController D) (v : Vector3 D) (dt : D)
      → IsUniform c
      → IsUniform (pid_torques c v dt).0
  unfolding IsUniform pid_torques
  pid_torques-IsUniform c v dt u =
      rw
        (
          config-calculate c.pid_roll v.x dt,
          config-calculate c.pid_pitch v.y dt,
          config-calculate c.pid_yaw v.z dt,
        )
        u

  call-IsUniform : (k : Call D) (c : AttitudeController D) → IsUniform c → IsUniform (call k c).0
  unfolding call update schedule set_gains reset Pid.reset IsUniform
  call-IsUniform (update_call sensors state target dt) c u =
      apply_rate_limiting-IsUniform _ _ dt
        (pid_torques-IsUniform _ _ dt (set_all_gains-IsUniform c _ _ _ u))
  call-IsUniform (set_gains_call kp ki kd true) c u = set_all_gains-IsUniform c kp ki kd u
  call-IsUniform (set_gains_call kp ki kd false) c u = u
  call-IsUniform reset_call c u = u

  run-IsUniform :
      (ks : List (Call D)) (c : AttitudeController D) → IsUniform c → IsUniform (run ks c)
  unfolding run
  run-IsUniform [] c u = u
  run-IsUniform (k ∷ ks) c u = run-IsUniform ks (call k c).0 (call-IsUniform k c u)

  -- After any sequence of calls on a new controller, the three axes have the same gains and limits.
  pub run-init :
      (config : AttitudeConfig D) (ks : List (Call D))
      → let c = run ks (init config) in
        (c.pid_roll.config ≡ c.pid_pitch.config) × (c.pid_pitch.config ≡ c.pid_yaw.config)
  unfolding init IsUniform Pid.init
  run-init config ks = run-IsUniform ks (init config) (refl, refl)

  -- A controller with another integral gain for large errors.
  abbrev pub with_large_ki : AttitudeController D → D → AttitudeController D
  with_large_ki c ki = record c {
    config = record c.config { large_error_pid = record c.config.large_error_pid { ki = ki } };
  }

  -- Such a controller does what the other does, and stays such a controller.
  call-with_large_ki :
      (k : Call D) (c : AttitudeController D) (ki : D)
      → (ki' : D) × (call k (with_large_ki c ki) ≡ (with_large_ki (call k c).0 ki', (call k c).1))
  unfolding call update apply_rate_limiting schedule scheduled_config compute_gain_factor
      pid_torques set_all_gains set_gains reset
  call-with_large_ki (update_call sensors state target dt) c ki =
      (ki, elim (Bool-cases (dt ≼ lit 0 0)) [ inl h ↦ rw h refl | inr h ↦ rw h refl ])
  call-with_large_ki (set_gains_call kp ki' kd true) c ki = (ki, refl)
  call-with_large_ki (set_gains_call kp ki' kd false) c ki = (ki', refl)
  call-with_large_ki reset_call c ki = (ki, refl)

  -- The integral gain for large errors has no effect: whatever it is, every sequence of calls
  -- returns the same torques.
  pub results-with_large_ki :
      (ks : List (Call D)) (c : AttitudeController D) (ki : D)
      → results ks (with_large_ki c ki) ≡ results ks c
  unfolding results
  results-with_large_ki [] c ki = refl
  results-with_large_ki (k ∷ ks) c ki =
      let (ki', e) = call-with_large_ki k c ki in
      rw (e, results-with_large_ki ks (call k c).0 ki') refl
