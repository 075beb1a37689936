-- ===== src/Eigen.antt =====
-- The vectors and quaternions of common/types.hpp. The code builds and reads them by coordinates;
-- every other operation on them is Eigen's, a third-party library, and stays a parameter.
use cubesat_fsw_gnc.Double.{Double, lit}

pub record Vector3 (D : Type 0) : Type 0 where
  pub x : D
  pub y : D
  pub z : D

pub record Quaternion (D : Type 0) : Type 0 where
  pub w : D
  pub x : D
  pub y : D
  pub z : D

pub record Eigen (D : Type 0) : Type 0 where
  pub norm : Vector3 D → D
  pub add : Vector3 D → Vector3 D → Vector3 D
  pub sub : Vector3 D → Vector3 D → Vector3 D
  pub scale : D → Vector3 D → Vector3 D
  pub divide : Vector3 D → D → Vector3 D
  pub cross : Vector3 D → Vector3 D → Vector3 D
  pub squared_norm : Vector3 D → D
  pub inverse : Quaternion D → Quaternion D
  pub conjugate : Quaternion D → Quaternion D
  -- `q * v`
  pub rotate : Quaternion D → Vector3 D → Vector3 D
  pub compose : Quaternion D → Quaternion D → Quaternion D
  pub dot : Vector3 D → Vector3 D → D
  pub normalized : Vector3 D → Vector3 D
  pub negate : Vector3 D → Vector3 D
  pub normalize : Quaternion D → Quaternion D
  pub from_two_vectors : Vector3 D → Vector3 D → Quaternion D
  -- `Quaternion(AngleAxis(angle, axis))`
  pub of_angle_axis : D → Vector3 D → Quaternion D
  -- `Quaternion` of the matrix with these columns
  pub of_columns : Vector3 D → Vector3 D → Vector3 D → Quaternion D
  -- `AngleAxisd(q)`, as axis times angle
  pub angle_axis : Quaternion D → Vector3 D

module _ {D : Type 0} ⦃d : Double D⦄ where
  -- `Vector3::Zero()`
  abbrev pub vector_zero : Vector3 D
  vector_zero = record { x = lit 0 0; y = lit 0 0; z = lit 0 0 }

  -- `Quaternion::Identity()`
  abbrev pub quaternion_identity : Quaternion D
  quaternion_identity = record { w = lit 1 0; x = lit 0 0; y = lit 0 0; z = lit 0 0 }
