-- ===== src/Gnc/Mekf.antt =====
-- src/fsw/gnc/ekf/MEKF.hpp and MEKF.cpp: a Kalman filter of the attitude and of the gyro's bias.
-- The matrices are Eigen's. Logging is left out.
pub mod Signs
pub mod Reset
pub mod Tests
use cubesat_fsw_gnc.Prelude.{Bool, not, List, [], ◌∷◌, if◌then◌else◌}
use cubesat_fsw_gnc.Double.{Double, lit, ◌⊕◌, ◌⊗◌, ◌≺◌}
use cubesat_fsw_gnc.Eigen.{Eigen, Vector3, Quaternion, vector_zero, quaternion_identity}
use cubesat_fsw_gnc.Linear.{Matrices}
use cubesat_fsw_gnc.Gnc.Interfaces.{SensorData, Estimator}

pub record Mekf (D M : Type 0) : Type 0 where
  pub q_est : Quaternion D
  pub beta_est : Vector3 D
  pub w_est : Vector3 D
  pub p : M

module _ {D M : Type 0} ⦃d : Double D⦄ ⦃m : Matrices D M⦄ where
  unfoldable pub init : Mekf D M
  init = record {
    q_est = quaternion_identity;
    beta_est = vector_zero;
    w_est = vector_zero;
    p = m.identity 6;
  }

  -- The rate stays.
  unfoldable pub reset : Mekf D M → Mekf D M
  reset f = record f {
    q_est = quaternion_identity;
    beta_est = vector_zero;
    p = m.scale (lit 1 0) (m.identity 6);
  }

  -- The matrix of the cross product with a vector.
  unfoldable pub omega_cross : Vector3 D → M
  omega_cross v =
      let o : D = lit 0 0 in
      m.of_rows
        ((o ∷ d.neg v.z ∷ v.y ∷ []) ∷ (v.z ∷ o ∷ d.neg v.x ∷ []) ∷ (d.neg v.y ∷ v.x ∷ o ∷ []) ∷ [])

module _ {D M : Type 0} where
  unfoldable pub is_valid : ⦃m : Matrices D M⦄ → Mekf D M → Bool
  is_valid ⦃m⦄ f = not (m.has_nan f.p)

  unfoldable pub initialize : ⦃e : Eigen D⦄ → Mekf D M → Quaternion D → Vector3 D → M → Mekf D M
  initialize ⦃e⦄ f q0 beta0 p0 = record f { q_est = e.normalize q0; beta_est = beta0; p = p0 }

module _ {D : Type 0} ⦃d : Double D⦄ ⦃e : Eigen D⦄ where
  -- One Euler step of the attitude.
  unfoldable pub integrate : Quaternion D → Vector3 D → D → Quaternion D
  integrate q rate dt =
      let q_dot = e.compose q (record { w = lit 0 0; x = rate.x; y = rate.y; z = rate.z }) in
      let half : D = lit 5 1 in
      e.normalize (record {
        w = q.w ⊕ q_dot.w ⊗ half ⊗ dt;
        x = q.x ⊕ q_dot.x ⊗ half ⊗ dt;
        y = q.y ⊕ q_dot.y ⊗ half ⊗ dt;
        z = q.z ⊕ q_dot.z ⊗ half ⊗ dt;
      })

  -- The residual of a measured attitude, on the short path.
  unfoldable pub residual : Quaternion D → Quaternion D → Vector3 D
  residual q_meas q_est =
      let dq = e.compose q_meas (e.inverse q_est) in
      let z = e.scale (lit 2 0) (record { x = dq.x; y = dq.y; z = dq.z }) in
      if dq.w ≺ lit 0 0 then e.negate z else z

module _ {D M : Type 0} ⦃d : Double D⦄ ⦃e : Eigen D⦄ ⦃m : Matrices D M⦄ where
  unfoldable pub predict : Mekf D M → Vector3 D → D → M → Mekf D M
  unfolding integrate omega_cross
  predict f gyro_meas dt q_noise =
      let omega_est = e.sub gyro_meas f.beta_est in
      let dynamics =
        m.set_block (m.set_block (m.zero 6 6) 0 0 (m.negate (omega_cross omega_est))) 0 3
          (m.negate (m.identity 3)) in
      let phi = m.add (m.identity 6) (m.scale dt dynamics) in
      record f {
        q_est = integrate f.q_est omega_est dt;
        p = m.add (m.mul (m.mul phi f.p) (m.transpose phi)) q_noise;
      }

  -- The correction of the state and of the covariance for a residual.
  unfoldable pub correct : Mekf D M → Vector3 D → M → Mekf D M
  correct f z r =
      let h = m.set_block (m.zero 3 6) 0 0 (m.identity 3) in
      let s = m.add (m.mul (m.mul h f.p) (m.transpose h)) r in
      let k = m.mul (m.mul f.p (m.transpose h)) (m.inverse s) in
      let dx = m.mul k (m.of_vector3 z) in
      let d_theta = m.segment3 dx 0 in
      let half : D = lit 5 1 in
      let correction = e.normalize (record {
        w = lit 1 0;
        x = d_theta.x ⊗ half;
        y = d_theta.y ⊗ half;
        z = d_theta.z ⊗ half;
      }) in
      let ikh = m.sub (m.identity 6) (m.mul k h) in
      record f {
        beta_est = e.add f.beta_est (m.segment3 dx 3);
        q_est = e.normalize (e.compose correction f.q_est);
        p = m.add (m.mul (m.mul ikh f.p) (m.transpose ikh)) (m.mul (m.mul k r) (m.transpose k));
      }

  unfoldable pub update_quat : Mekf D M → Quaternion D → M → Mekf D M
  update_quat f q_meas r = correct f (residual q_meas f.q_est) r

  unfoldable pub update : Mekf D M → SensorData D → D → Mekf D M
  unfolding predict update_quat
  update f sensors dt =
      let predicted = predict f sensors.gyro_body dt (m.scale (lit 1 7) (m.identity 6)) in
      let corrected = update_quat predicted sensors.q_measured (m.scale (lit 1 4) (m.identity 3)) in
      record corrected { w_est = e.sub sensors.gyro_body corrected.beta_est }

  -- The implementation of the abstract estimator.
  abbrev pub mekf : Estimator D (Mekf D M)
  mekf = record {
    update = update;
    get_attitude = λ f. f.q_est;
    get_angular_velocity = λ f. f.w_est;
    reset = reset;
  }
