-- ===== src/Sim/StarTracker.antt =====
-- src/sim/models/SimStarTracker.hpp and SimStarTracker.cpp: the attitude from inertial to body axes.
use cubesat_fsw_gnc.Double.{◌≺◌, ◌⊗◌, lit, Double}
use cubesat_fsw_gnc.Eigen.{Quaternion, Eigen}
use cubesat_fsw_gnc.Sim.Noise.{draw, Noise}
use cubesat_fsw_gnc.Prelude.{if◌then◌else◌}

pub record SimStarTracker (D G : Type 0) : Type 0 where
  pub noise_std : D
  pub gen : G

unfoldable pub init : {D G : Type 0} → D → G → SimStarTracker D G
init noise_std gen = record { noise_std = noise_std; gen = gen }

module _ {D G : Type 0} ⦃d : Double D⦄ ⦃e : Eigen D⦄ ⦃n : Noise D G⦄ where
  -- A small random rotation.
  unfoldable pub random_rotation : D → G → Quaternion D × G
  unfolding draw
  random_rotation noise_std g =
      let (dx, g1) = draw noise_std g in
      let (dy, g2) = draw noise_std g1 in
      let (dz, g3) = draw noise_std g2 in
      let half = lit 5 1 in
      (e.normalize (record { w = lit 1 0; x = dx ⊗ half; y = dy ⊗ half; z = dz ⊗ half }), g3)

  -- The measured orientation of a body, and the star tracker after it.
  unfoldable pub get_orientation :
      SimStarTracker D G → Quaternion D → Quaternion D × SimStarTracker D G
  unfolding random_rotation
  get_orientation s q_bi =
      let q_ib = e.inverse q_bi in
      let (noise, gen) = random_rotation s.noise_std s.gen in
      if lit 0 0 ≺ s.noise_std then (e.compose noise q_ib, record s { gen = gen }) else (q_ib, s)
