-- ===== src/Gnc/Mekf/Tests.antt =====
-- The filter on concrete measurements, over stand-ins for Eigen's products.
use cubesat_fsw_gnc.Prelude.{ℕ, ◌≡◌, refl, inr, true, false, [], ◌∷◌, arith}
use cubesat_fsw_gnc.Double.{lit, ◌⊕◌, ◌⊖◌, ◌⊗◌}
use cubesat_fsw_gnc.Eigen.{Eigen, Quaternion, vector_zero}
use cubesat_fsw_gnc.Fixed.{Fixed, fixed_double, fixed_eigen, fixed_matrices}
use cubesat_fsw_gnc.Gnc.Interfaces.{SensorData}
use cubesat_fsw_gnc.Gnc.Mekf.{Mekf, init, reset, update, predict, integrate}
use cubesat_fsw_gnc.Gnc.Mekf.Signs.{
  opposite, HasSigns, ComparesSigns, IsSided, predicted, update-opposite,
}
use cubesat_fsw_gnc.Gnc.Mekf.Reset.{update_all, update_all-reset}

-- The Hamilton product, and the inverse of a unit quaternion.
abbrev product : Quaternion Fixed → Quaternion Fixed → Quaternion Fixed
product p q = record {
  w = p.w ⊗ q.w ⊖ p.x ⊗ q.x ⊖ p.y ⊗ q.y ⊖ p.z ⊗ q.z;
  x = p.w ⊗ q.x ⊕ p.x ⊗ q.w ⊕ p.y ⊗ q.z ⊖ p.z ⊗ q.y;
  y = p.w ⊗ q.y ⊕ p.y ⊗ q.w ⊕ p.z ⊗ q.x ⊖ p.x ⊗ q.z;
  z = p.w ⊗ q.z ⊕ p.z ⊗ q.w ⊕ p.x ⊗ q.y ⊖ p.y ⊗ q.x;
}

abbrev conjugated : Quaternion Fixed → Quaternion Fixed
conjugated q = record {
  w = q.w;
  x = fixed_double.neg q.x;
  y = fixed_double.neg q.y;
  z = fixed_double.neg q.z;
}

abbrev products : Eigen Fixed
products = record fixed_eigen { compose = product; inverse = conjugated }

neg_lt : (a : Fixed) → fixed_double.lt (fixed_double.neg a) (lit 0 0) ≡ fixed_double.lt (lit 0 0) a
neg_lt a = ground arith

lt_asymm : (a : Fixed) → fixed_double.lt (lit 0 0) a ≡ true → fixed_double.lt a (lit 0 0) ≡ false
lt_asymm a h = ground (arith, h)

abbrev signs : ComparesSigns Fixed
signs = record { neg_lt = neg_lt; lt_asymm = lt_asymm }

abbrev sensors : SensorData Fixed
sensors = record {
  mag_body = vector_zero;
  gyro_body = record { x = lit 1 1; y = lit 0 0; z = lit 0 0 };
  q_measured = record { w = lit 8 1; x = lit 5 1; y = lit 3 1; z = lit 1 1 };
  sun_body = vector_zero;
  rw_speeds = [];
  rw_torques_prev = [];
}

abbrev turned : Mekf Fixed ℕ
turned = record {
  q_est = sensors.q_measured;
  beta_est = sensors.gyro_body;
  w_est = sensors.gyro_body;
  p = 3;
}

-- The attitude that the prediction of `turned` gives.
abbrev expected : Quaternion Fixed
unfolding predict integrate
expected = (predicted ⦃e = products⦄ turned sensors (lit 1 1)).q_est

sensors-HasSigns : HasSigns ⦃e = products⦄ sensors.q_measured expected
unfolding predict integrate expected
sensors-HasSigns = record { opposite-compose = refl; scale-opposite = refl; negate-negate = refl }

sensors-IsSided : IsSided ⦃e = products⦄ sensors.q_measured expected
unfolding predict integrate expected
sensors-IsSided = inr refl

update-opposite_example :
    update ⦃e = products⦄ turned
      (record sensors { q_measured = opposite sensors.q_measured })
      (lit 1 1)
    ≡ update ⦃e = products⦄ turned sensors (lit 1 1)
unfolding expected predict integrate
update-opposite_example =
    update-opposite ⦃e = products⦄ ⦃signs = signs⦄ turned sensors (lit 1 1) sensors-HasSigns
      sensors-IsSided

update_all-reset_example :
    ((reset turned).w_est ≡ turned.w_est)
    × (update_all (reset turned) ((sensors, lit 1 1) ∷ [])
        ≡ update_all init ((sensors, lit 1 1) ∷ []))
update_all-reset_example = update_all-reset turned sensors (lit 1 1) [] (λ a. refl)
