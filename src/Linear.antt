-- ===== src/Linear.antt =====
-- The operations on matrices that the flight software takes from Eigen, a third-party library.
-- They are a parameter, over any type `M` of matrices.
use cubesat_fsw_gnc.Prelude.{ℕ, Bool, List}
use cubesat_fsw_gnc.Eigen.{Vector3, Quaternion}

pub record Matrices (D M : Type 0) : Type 0 where
  pub zero : ℕ → ℕ → M
  -- `m << a, b, ...`, by rows
  pub of_rows : List (List D) → M
  pub of_vector3 : Vector3 D → M
  pub col : M → ℕ → M
  -- `m.col(i) = v`
  pub set_col : M → ℕ → M → M
  pub transpose : M → M
  pub negate : M → M
  pub mul : M → M → M
  pub inverse : M → M
  pub determinant : M → D
  -- `v(i)` of a column vector
  pub at : M → ℕ → D
  -- `m(i, j)`
  pub entry : M → ℕ → ℕ → D
  pub identity : ℕ → M
  pub rows : M → ℕ
  pub cols : M → ℕ
  -- `m(i, j) = a`
  pub set_at : M → ℕ → ℕ → D → M
  -- `m.block(i, j) = b`, from row `i` and column `j` on
  pub set_block : M → ℕ → ℕ → M → M
  -- `v.segment<3>(i)` of a column vector
  pub segment3 : M → ℕ → Vector3 D
  -- A column of two vectors, by `x << a, b`
  pub stack : Vector3 D → Vector3 D → M
  -- A quaternion whose coefficients x, y, z, w are the first four entries, and a column of those of
  -- a quaternion and a vector.
  pub coeffs : M → Quaternion D
  pub stack_coeffs : Quaternion D → Vector3 D → M
  pub add : M → M → M
  pub sub : M → M → M
  pub scale : D → M → M
  -- `m.array().isNaN().any()`
  pub has_nan : M → Bool
