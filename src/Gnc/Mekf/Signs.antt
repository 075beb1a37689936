-- ===== src/Gnc/Mekf/Signs.antt =====
-- src/fsw/gnc/ekf/MEKF.cpp: a quaternion and its negative are the same attitude.
use cubesat_fsw_gnc.Prelude.{◌≡◌, ap, ◌∙◌, inl, inr, ◌⊎◌, true, false, Bool-cases, arith}
use cubesat_fsw_gnc.Double.{Double, lit, ◌≺◌}
use cubesat_fsw_gnc.Eigen.{Eigen, Vector3, Quaternion}
use cubesat_fsw_gnc.Linear.{Matrices}
use cubesat_fsw_gnc.Gnc.Interfaces.{SensorData}
use cubesat_fsw_gnc.Gnc.Mekf.{Mekf, predict, residual, correct, update_quat, update}

module _ {D : Type 0} ⦃d : Double D⦄ where
  abbrev pub opposite : Quaternion D → Quaternion D
  opposite q = record { w = d.neg q.w; x = d.neg q.x; y = d.neg q.y; z = d.neg q.z }

  abbrev vec : Quaternion D → Vector3 D
  vec q = record { x = q.x; y = q.y; z = q.z }

-- The sign of a measured quaternion goes through its product with the inverse of an estimate and
-- through the double of the product. Where no component of the product is zero or a NaN, IEEE 754
-- arithmetic does this; an exact zero from a difference is `+0` for both signs.
pub record HasSigns {D : Type 0} ⦃d : Double D⦄ ⦃e : Eigen D⦄ (q_meas q_est : Quaternion D)
    : Type 0 where
  pub opposite-compose :
      e.compose (opposite q_meas) (e.inverse q_est) ≡ opposite (e.compose q_meas (e.inverse q_est))
  pub scale-opposite :
      let dq = e.compose q_meas (e.inverse q_est) in
      e.scale (lit 2 0) (vec (opposite dq)) ≡ e.negate (e.scale (lit 2 0) (vec dq))
  pub negate-negate :
      let z = e.scale (lit 2 0) (vec (e.compose q_meas (e.inverse q_est))) in
      e.negate (e.negate z) ≡ z

-- Comparisons with zero under a change of sign; `-0` is not less than zero.
pub record ComparesSigns (D : Type 0) ⦃d : Double D⦄ : Type 0 where
  pub neg_lt : (a : D) → d.neg a ≺ lit 0 0 ≡ (lit 0 0 ≺ a)
  pub lt_asymm : (a : D) → lit 0 0 ≺ a ≡ true → a ≺ lit 0 0 ≡ false

module _ {D : Type 0} ⦃d : Double D⦄ ⦃e : Eigen D⦄ where
  -- The error quaternion is neither orthogonal to the estimate nor invalid.
  abbrev pub IsSided : Quaternion D → Quaternion D → Type 0
  IsSided q_meas q_est =
      let w = (e.compose q_meas (e.inverse q_est)).w in (w ≺ lit 0 0 ≡ true) ⊎ (lit 0 0 ≺ w ≡ true)

module _ {D : Type 0} ⦃d : Double D⦄ ⦃e : Eigen D⦄ ⦃signs : ComparesSigns D⦄ where
  residual-opposite :
      (q_meas q_est : Quaternion D)
      → HasSigns q_meas q_est
      → IsSided q_meas q_est
      → residual (opposite q_meas) q_est ≡ residual q_meas q_est
  unfolding residual
  residual-opposite q_meas q_est has h =
      let dq = e.compose q_meas (e.inverse q_est) in
      elim h [
        | inl p ↦
            let n : lit 0 0 ≺ dq.w ≡ false = elim (Bool-cases (lit 0 0 ≺ dq.w)) [
              | inl q ↦ absurd (ground (arith, p, signs.lt_asymm dq.w q))
              | inr q ↦ q
            ] in
            rw (has.opposite-compose, signs.neg_lt dq.w, n, p) has.scale-opposite
        | inr p ↦
            rw (has.opposite-compose, signs.neg_lt dq.w, p, signs.lt_asymm dq.w p)
              (ap e.negate has.scale-opposite ∙ has.negate-negate)
      ]

module _ {D M : Type 0} ⦃d : Double D⦄ ⦃e : Eigen D⦄ ⦃m : Matrices D M⦄ where
  -- The prediction of an update.
  abbrev pub predicted : Mekf D M → SensorData D → D → Mekf D M
  predicted f sensors dt = predict f sensors.gyro_body dt (m.scale (lit 1 7) (m.identity 6))

module _ {D M : Type 0} ⦃d : Double D⦄ ⦃e : Eigen D⦄ ⦃m : Matrices D M⦄
    ⦃signs : ComparesSigns D⦄ where
  -- An update of the filter does the same for a star tracker quaternion and for its negative, which
  -- is the same attitude, given that the error to the predicted attitude has a scalar part above or
  -- below zero, that the sign goes through the product of quaternions that gives this error and
  -- through its double, and that comparisons with zero turn with the sign.
  pub update-opposite :
      (f : Mekf D M) (sensors : SensorData D) (dt : D)
      → HasSigns sensors.q_measured (predicted f sensors dt).q_est
      → IsSided sensors.q_measured (predicted f sensors dt).q_est
      → update f (record sensors { q_measured = opposite sensors.q_measured }) dt
        ≡ update f sensors dt
  unfolding update update_quat
  update-opposite f sensors dt has h =
      let r = m.scale (lit 1 4) (m.identity 3) in
      ap
        (λ z.
          let g = correct (predicted f sensors dt) z r in
          record g { w_est = e.sub sensors.gyro_body g.beta_est })
        (residual-opposite sensors.q_measured (predicted f sensors dt).q_est has h)
