-- ===== src/Sim/Gyro.antt =====
-- src/sim/models/SimGyro.hpp and SimGyro.cpp: a gyroscope on a simulated body.
use cubesat_fsw_gnc.Sim.Noise.{add_noise, Noise}
use cubesat_fsw_gnc.Eigen.{vector_zero, Eigen, Vector3}
use cubesat_fsw_gnc.Double.{lit, Double}
use cubesat_fsw_gnc.Prelude.{Bool, true, false, if◌then◌else◌}

pub record SimGyro (D G : Type 0) : Type 0 where
  pub noise_std : D
  pub bias : Vector3 D
  pub is_dead : Bool
  pub scaling_factor : D
  pub gen : G

module _ {D G : Type 0} ⦃d : Double D⦄ where
  -- The constructor, with the default configuration and a generator seeded by the clock.
  unfoldable pub init : G → SimGyro D G
  init gen = record {
    noise_std = lit 0 0;
    bias = vector_zero;
    is_dead = false;
    scaling_factor = lit 1 0;
    gen = gen;
  }

module _ {D G : Type 0} where
  unfoldable pub inject_failure_dead : SimGyro D G → SimGyro D G
  inject_failure_dead s = record s { is_dead = true }

  unfoldable pub set_scaling_factor : SimGyro D G → D → SimGyro D G
  set_scaling_factor s factor = record s { scaling_factor = factor }

module _ {D G : Type 0} ⦃d : Double D⦄ ⦃e : Eigen D⦄ ⦃n : Noise D G⦄ where
  -- The reading at an angular velocity, and the gyroscope after it.
  unfoldable pub read : SimGyro D G → Vector3 D → Vector3 D × SimGyro D G
  unfolding add_noise
  read s true_omega =
      let measured = e.scale s.scaling_factor (e.add true_omega s.bias) in
      let (noisy, gen) = add_noise s.noise_std measured s.gen in
      if s.is_dead then (vector_zero, s) else (noisy, record s { gen = gen })
