-- ===== src/Gnc/Lqr/Lqg.antt =====
-- src/fsw/gnc/control/LQGController.hpp: linear feedback of the filter's estimate. The filter is
-- shared, and `none` is a null pointer.
use cubesat_fsw_gnc.Prelude.{Option, none, some, if◌then◌else◌}
use cubesat_fsw_gnc.Double.{Double, Libm, lit, ◌⊗◌, ◌⊘◌, ◌≺◌, fmin}
use cubesat_fsw_gnc.Eigen.{Eigen, Vector3, Quaternion, vector_zero}
use cubesat_fsw_gnc.Linear.{Matrices}
use cubesat_fsw_gnc.Gnc.Mekf.{Mekf}
use cubesat_fsw_gnc.Gnc.Lqr
use cubesat_fsw_gnc.Gnc.Lqr.{Lqr}

pub record Lqg (D M : Type 0) : Type 0 where
  pub mekf : Option (Mekf D M)
  pub lqr : Lqr M

module _ {D : Type 0} ⦃d : Double D⦄ ⦃e : Eigen D⦄ where
  -- The error quaternion on the short path.
  unfoldable pub short_error : Quaternion D → Quaternion D → Quaternion D
  short_error q_est q_target =
      let q = e.compose q_est (e.inverse q_target) in
      let minus : D → D = λ a. a ⊗ d.neg (lit 1 0) in
      if q.w ≺ lit 0 0
      then record { w = minus q.w; x = minus q.x; y = minus q.y; z = minus q.z }
      else q

  -- The rotation vector of an error.
  unfoldable pub delta_theta : ⦃libm : Libm D⦄ → Quaternion D → Vector3 D
  delta_theta ⦃libm⦄ q =
      let v : Vector3 D = record { x = q.x; y = q.y; z = q.z } in
      let error_angle = lit 2 0 ⊗ libm.acos (fmin (lit 1 0) (d.abs q.w)) in
      let sin_half = libm.sin (error_angle ⊘ lit 2 0) in
      if error_angle ≺ lit 1 6
      then e.scale (lit 2 0) v
      else (if lit 1 9 ≺ d.abs sin_half
          then e.scale (error_angle ⊘ sin_half) v
          else e.scale (lit 2 0) v)

module _ {D M : Type 0} ⦃d : Double D⦄ ⦃e : Eigen D⦄ ⦃libm : Libm D⦄ ⦃m : Matrices D M⦄ where
  -- The state vector of an estimate for the regulator.
  unfoldable pub regulated : Mekf D M → Quaternion D → Vector3 D → Vector3 D → M
  regulated f q_target omega_target omega_meas =
      m.stack (delta_theta (short_error f.q_est q_target))
        (e.sub (e.sub omega_meas f.beta_est) omega_target)

  -- `computeTorque`
  unfoldable pub lqg_torque : Lqg D M → Quaternion D → Vector3 D → Vector3 D → Vector3 D
  lqg_torque c q_target omega_target omega_meas = elim c.mekf [
    | none ↦ vector_zero
    | some f ↦ Lqr.compute_torque c.lqr (regulated f q_target omega_target omega_meas)
  ]
