-- ===== src/Gnc/ControlAllocator.antt =====
-- src/fsw/gnc/control/ControlAllocator.hpp: body torques on four wheels by a pseudo-inverse. Logging
-- is left out.
pub mod Spares
use cubesat_fsw_gnc.Prelude.{
  ℕ, ◌+◌, Bool, true, false, List, [], ◌∷◌, set, replicate, none, some, get_elem?, if◌then◌else◌,
}
use cubesat_fsw_gnc.Double.{Double, lit, ◌≺◌}
use cubesat_fsw_gnc.Eigen.{Vector3}
use cubesat_fsw_gnc.Linear.{Matrices}

pub record ControlAllocator (M : Type 0) : Type 0 where
  pub a_nominal : M
  pub wheel_healthy : List Bool

module _ {M : Type 0} where
  -- Writing the value that is there already changes nothing, and a write out of range is dropped.
  unfoldable pub set_wheel_health : ControlAllocator M → ℕ → Bool → ControlAllocator M
  set_wheel_health a index healthy = record a { wheel_healthy = set a.wheel_healthy index healthy }

  unfoldable pub get_wheel_health : ControlAllocator M → ℕ → Bool
  get_wheel_health a index = elim (get_elem? a.wheel_healthy index) [
    | none ↦ false
    | some healthy ↦ healthy
  ]

module _ (D : Type 0) {M : Type 0} ⦃d : Double D⦄ ⦃m : Matrices D M⦄ where
  unfoldable pub init : ControlAllocator M
  init =
      let c : D = lit 7071067811865475 16 in
      let s : D = lit 7071067811865475 16 in
      let o : D = lit 0 0 in
      record {
        a_nominal =
            m.of_rows
              ((c ∷ o ∷ d.neg c ∷ o ∷ []) ∷ (o ∷ c ∷ o ∷ d.neg c ∷ []) ∷ (s ∷ s ∷ s ∷ s ∷ []) ∷ []);
        wheel_healthy = replicate 4 true;
      }

module _ (D : Type 0) {M : Type 0} ⦃m : Matrices D M⦄ where
  -- The loop that copies the columns of the healthy wheels, from wheel `i` on.
  unfoldable pub reconfigure : M → ℕ → List Bool → M → M
  reconfigure nominal i [] a = a
  reconfigure nominal i (healthy ∷ rest) a =
      reconfigure nominal (i + 1) rest (if healthy then m.set_col a i (m.col nominal i) else a)

module _ {D M : Type 0} ⦃d : Double D⦄ ⦃m : Matrices D M⦄ where
  -- The loop that writes the torques, from wheel `i` on.
  unfoldable pub assign_torques : M → ℕ → List Bool → List D
  assign_torques u i [] = []
  assign_torques u i (healthy ∷ rest) =
      (if healthy then m.at u i else lit 0 0) ∷ assign_torques u (i + 1) rest

  -- The torques of the wheels, and whether the allocation succeeded.
  unfoldable pub allocate : ControlAllocator M → Vector3 D → List D × Bool
  allocate a body_torque =
      let a_healthy = reconfigure D a.a_nominal 0 a.wheel_healthy (m.zero 3 4) in
      let aat = m.mul a_healthy (m.transpose a_healthy) in
      if d.abs (m.determinant aat) ≺ lit 1 7
      then (replicate 4 (lit 0 0), false)
      else (let u =
            m.mul (m.mul (m.negate (m.transpose a_healthy)) (m.inverse aat))
              (m.of_vector3 body_torque) in
          (assign_torques u 0 a.wheel_healthy, true))
