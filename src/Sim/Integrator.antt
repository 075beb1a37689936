-- ===== src/Sim/Integrator.antt =====
-- src/sim/engine/Integrator.hpp: one step of the Runge-Kutta method of order four, over any type of
-- states with sums and multiples.
use cubesat_fsw_gnc.Linear.{Matrices}
use cubesat_fsw_gnc.Double.{◌⊘◌, ◌⊗◌, ◌⊕◌, lit, Double}

pub record StateType (D S : Type 0) : Type 0 where
  pub plus : S → S → S
  pub times : D → S → S

unfoldable pub rk4 :
    {D S : Type 0} → ⦃d : Double D⦄ → ⦃v : StateType D S⦄ → D → S → D → (D → S → S) → S
rk4 ⦃d⦄ ⦃v⦄ t y dt f =
    let half = lit 5 1 in
    let two = lit 2 0 in
    let k1 = f t y in
    let k2 = f (t ⊕ dt ⊗ half) (v.plus y (v.times half (v.times dt k1))) in
    let k3 = f (t ⊕ dt ⊗ half) (v.plus y (v.times half (v.times dt k2))) in
    let k4 = f (t ⊕ dt) (v.plus y (v.times dt k3)) in
    v.plus y
      (v.times (dt ⊘ lit 6 0) (v.plus (v.plus (v.plus k1 (v.times two k2)) (v.times two k3)) k4))

-- Matrices are such states.
instance abbrev pub matrix_state : {D M : Type 0} → ⦃m : Matrices D M⦄ → StateType D M
matrix_state ⦃m⦄ = record { plus = m.add; times = m.scale }
