-- ===== src/Sim/Noise.antt =====
-- The noise of the simulated sensors. The generator and the normal distribution of <random> that each
-- sensor keeps are a parameter.
use cubesat_fsw_gnc.Double.{◌⊕◌, ◌≺◌, lit, ◌⊗◌, Double}
use cubesat_fsw_gnc.Eigen.{Vector3}
use cubesat_fsw_gnc.Prelude.{if◌then◌else◌}

-- `next` is `dist_(gen_)`, a draw of deviation 1, over the state `G` of generator and distribution.
pub record Noise (D G : Type 0) : Type 0 where
  pub next : G → D × G

module _ {D G : Type 0} ⦃d : Double D⦄ ⦃n : Noise D G⦄ where
  -- A draw times the deviation.
  unfoldable pub draw : D → G → D × G
  draw noise_std g = let (a, g1) = n.next g in (a ⊗ noise_std, g1)

  -- The noise on a measured vector, where there is any; it may be off.
  unfoldable pub add_noise : D → Vector3 D → G → Vector3 D × G
  unfolding draw
  add_noise noise_std v g =
      let (a, g1) = draw noise_std g in
      let (b, g2) = draw noise_std g1 in
      let (c, g3) = draw noise_std g2 in
      if lit 0 0 ≺ noise_std then (record { x = v.x ⊕ a; y = v.y ⊕ b; z = v.z ⊕ c }, g3) else (v, g)
