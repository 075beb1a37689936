-- ===== src/Gnc/Lqr.antt =====
-- src/fsw/gnc/control/LQRController.hpp: linear feedback by a gain matrix.
pub mod Shape
pub mod Lqg
pub mod Tests
use cubesat_fsw_gnc.Prelude.{ℕ, ◌+◌, Bool, not, ◌&&◌, ◌||◌, ◌==◌, if◌then◌else◌}
use cubesat_fsw_gnc.Double.{Double, lit}
use cubesat_fsw_gnc.Eigen.{Vector3, vector_zero}
use cubesat_fsw_gnc.Linear.{Matrices}

pub record Lqr (M : Type 0) : Type 0 where
  pub k : M

module _ {D M : Type 0} ⦃m : Matrices D M⦄ where
  -- `Config::Default`, for the two weights.
  unfoldable pub default_config : D → D → M
  default_config q_rot q_rate =
      let weigh : M → ℕ → M = λ k i. m.set_at (m.set_at k i i q_rot) i (i + 3) q_rate in
      weigh (weigh (weigh (m.zero 3 6) 0) 1) 2

module _ {D M : Type 0} ⦃d : Double D⦄ ⦃m : Matrices D M⦄ where
  unfoldable pub compute_torque : Lqr M → M → Vector3 D
  compute_torque c x =
      if not (m.rows x == 6) || (not (m.cols c.k == 6) || not (m.rows c.k == 3))
      then vector_zero
      else m.segment3 (m.mul (m.negate c.k) x) 0

module _ (D : Type 0) {M : Type 0} ⦃m : Matrices D M⦄ where
  unfoldable pub set_gains : Lqr M → M → Lqr M
  set_gains c k = if (m.rows k == 3) && (m.cols k == 6) then record c { k = k } else c
