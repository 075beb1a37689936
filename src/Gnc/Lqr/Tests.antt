-- ===== src/Gnc/Lqr/Tests.antt =====
-- The regulator over matrices that have a size and one entry.
use cubesat_fsw_gnc.Prelude.{ℕ, ◌≡◌, refl, false, List, [], ◌∷◌, some}
use cubesat_fsw_gnc.Double.{lit}
use cubesat_fsw_gnc.Eigen.{Vector3, vector_zero, quaternion_identity}
use cubesat_fsw_gnc.Linear.{Matrices}
use cubesat_fsw_gnc.Fixed.{Fixed, fixed_double, fixed_eigen, fixed_libm}
use cubesat_fsw_gnc.Gnc.Mekf.{Mekf}
use cubesat_fsw_gnc.Gnc.Lqr.{Lqr, default_config}
use cubesat_fsw_gnc.Gnc.Lqr.Lqg.{regulated, lqg_torque}
use cubesat_fsw_gnc.Gnc.Lqr.Shape.{HasShapes, set_all, last_gain, lqg_torque-set_all}

record Sized : Type 0 where
  row_count : ℕ
  col_count : ℕ
  entry : Fixed

abbrev sized : ℕ → ℕ → Fixed → Sized
sized r c x = record { row_count = r; col_count = c; entry = x }

instance abbrev matrices : Matrices Fixed Sized
matrices = record {
  zero = λ r c. sized r c (lit 0 0);
  of_rows = λ rows. sized 3 3 (lit 0 0);
  of_vector3 = λ v. sized 3 1 v.x;
  col = λ a i. sized a.row_count 1 a.entry;
  set_col = λ a i c. record a { entry = c.entry };
  transpose = λ a. sized a.col_count a.row_count a.entry;
  negate = λ a. record a { entry = fixed_double.neg a.entry };
  mul = λ a b. sized a.row_count b.col_count (fixed_double.mul a.entry b.entry);
  inverse = λ a. a;
  determinant = λ a. a.entry;
  at = λ a i. a.entry;
  entry = λ a i j. a.entry;
  identity = λ n. sized n n (lit 1 0);
  rows = λ a. a.row_count;
  cols = λ a. a.col_count;
  set_at = λ a i j x. record a { entry = x };
  set_block = λ a i j b. a;
  segment3 = λ a i. record { x = a.entry; y = a.entry; z = a.entry };
  stack = λ v w. sized 6 1 w.x;
  add = λ a b. a;
  sub = λ a b. a;
  scale = λ x a. a;
  has_nan = λ a. false;
  coeffs = λ a. quaternion_identity;
  stack_coeffs = λ q v. sized 7 1 v.x;
}

abbrev shapes : HasShapes Fixed Sized
shapes = record {
  rows-zero = λ r c. refl;
  cols-zero = λ r c. refl;
  rows-set_at = λ a i j x. refl;
  cols-set_at = λ a i j x. refl;
  rows-stack = λ v w. refl;
}

abbrev filter : Mekf Fixed Sized
filter = record {
  q_est = quaternion_identity;
  beta_est = vector_zero;
  w_est = vector_zero;
  p = sized 6 6 (lit 1 0);
}

abbrev rate : Vector3 Fixed
rate = record { x = lit 1 0; y = lit 0 0; z = lit 0 0 }

abbrev standard : Sized
standard = default_config {D = Fixed} (lit 1 0) (lit 5 1)

-- A gain of the right shape and one that is refused.
abbrev gains : List Sized
gains = sized 3 6 (lit 2 0) ∷ sized 6 3 (lit 5 0) ∷ []

in_force : last_gain Fixed standard gains ≡ sized 3 6 (lit 2 0)
unfolding last_gain
in_force = refl

lqg_torque-set_all_example :
    let c : Lqr Sized = record { k = standard } in
    lqg_torque
      (record { mekf = some filter; lqr = set_all Fixed c gains })
      quaternion_identity
      vector_zero
      rate
    ≡ matrices.segment3
        (matrices.mul
          (matrices.negate (last_gain Fixed standard gains))
          (regulated filter quaternion_identity vector_zero rate))
        0
lqg_torque-set_all_example =
    lqg_torque-set_all ⦃shapes = shapes⦄ filter (lit 1 0) (lit 5 1) gains quaternion_identity
      vector_zero rate
