-- ===== src/Gnc/ControlAllocator/Spares.antt =====
-- What the allocation gives to failed wheels (src/fsw/gnc/control/ControlAllocator.hpp).
use cubesat_fsw_gnc.Prelude.{
  ℕ, zero, suc, ◌+◌, ◌≡◌, refl, ap, inl, inr, Bool, true, false, List, [], ◌∷◌, length, replicate,
  some, get_elem?, Bool-cases, arith,
}
use mathlib.Core.Option.{some-injective}
use cubesat_fsw_gnc.Double.{Double, lit, ◌≺◌}
use cubesat_fsw_gnc.Eigen.{Vector3}
use cubesat_fsw_gnc.Linear.{Matrices}
use cubesat_fsw_gnc.Gnc.ControlAllocator.{ControlAllocator, assign_torques, reconfigure, allocate}

module _ {D : Type 0} ⦃d : Double D⦄ where
  -- One torque for each wheel, and none for a failed wheel.
  abbrev pub Spares : List Bool → List D → Type 0
  Spares [] [] = Unit
  Spares [] (t ∷ ts) = ⊥
  Spares (healthy ∷ hs) [] = ⊥
  Spares (healthy ∷ hs) (t ∷ ts) = (healthy ≡ false → t ≡ lit 0 0) × Spares hs ts

module _ (D : Type 0) ⦃d : Double D⦄ where
  pub Spares-replicate :
      (hs : List Bool) (n : ℕ) → length hs ≡ n → Spares hs (replicate n (lit {D = D} 0 0))
  Spares-replicate [] zero h = tt
  Spares-replicate [] (suc n) h = omega (arith, h)
  Spares-replicate (x ∷ hs) zero h = omega (arith, h)
  Spares-replicate (x ∷ hs) (suc n) h = (λ e. refl, Spares-replicate hs n (omega (arith, h)))

module _ {D : Type 0} ⦃d : Double D⦄ where
  pub length-Spares : (hs : List Bool) (ts : List D) → Spares hs ts → length ts ≡ length hs
  length-Spares [] [] s = refl
  length-Spares [] (t ∷ ts) s = absurd s
  length-Spares (h ∷ hs) [] s = absurd s
  length-Spares (h ∷ hs) (t ∷ ts) s = ap suc (length-Spares hs ts s.1)

  pub get_elem?-Spares :
      (hs : List Bool) (ts : List D) (i : ℕ)
      → Spares hs ts
      → get_elem? hs i ≡ some false
      → get_elem? ts i ≡ some (lit 0 0)
  get_elem?-Spares [] ts i s e = cc
  get_elem?-Spares (h ∷ hs) [] i s e = absurd s
  get_elem?-Spares (h ∷ hs) (t ∷ ts) zero s e = ap some (s.0 (some-injective _ _ e))
  get_elem?-Spares (h ∷ hs) (t ∷ ts) (suc i) s e = get_elem?-Spares hs ts i s.1 e

module _ (D : Type 0) {M : Type 0} ⦃d : Double D⦄ ⦃m : Matrices D M⦄ where
  Spares-assign_torques :
      (u : M) (i : ℕ) (hs : List Bool) → Spares hs (assign_torques {D = D} u i hs)
  unfolding assign_torques
  Spares-assign_torques u i [] = tt
  Spares-assign_torques u i (true ∷ hs) = (λ e. cc, Spares-assign_torques u (i + 1) hs)
  Spares-assign_torques u i (false ∷ hs) = (λ e. refl, Spares-assign_torques u (i + 1) hs)

module _ {D M : Type 0} ⦃d : Double D⦄ ⦃m : Matrices D M⦄ where
  pub allocate-Spares :
      (a : ControlAllocator M) (torque : Vector3 D)
      → length a.wheel_healthy ≡ 4
      → let (torques, success) = allocate a torque in
        Spares a.wheel_healthy torques × (success ≡ false → torques ≡ replicate 4 (lit 0 0))
  unfolding allocate
  allocate-Spares a torque h =
      let a_healthy = reconfigure D a.a_nominal 0 a.wheel_healthy (m.zero 3 4) in
      let det = m.determinant (m.mul a_healthy (m.transpose a_healthy)) in
      elim (Bool-cases (d.abs det ≺ lit 1 7)) [
        | inl p ↦ rw p (Spares-replicate D a.wheel_healthy 4 h, λ e. refl)
        | inr p ↦ rw p (Spares-assign_torques D _ 0 a.wheel_healthy, λ e. cc)
      ]
