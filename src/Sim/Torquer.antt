-- ===== src/Sim/Torquer.antt =====
-- src/sim/models/SimTorquer.hpp and SimTorquer.cpp: a magnetorquer with a saturated dipole.
use cubesat_fsw_gnc.Double.{Double, fmin, fmax}
use cubesat_fsw_gnc.Eigen.{Vector3, vector_zero}

pub record SimTorquer (D : Type 0) : Type 0 where
  pub max_dipole : D
  pub current_dipole : Vector3 D

module _ {D : Type 0} ⦃d : Double D⦄ where
  -- `std::max(-limit, std::min(limit, a))`
  unfoldable pub saturate : D → D → D
  saturate limit a = fmax (d.neg limit) (fmin limit a)

  unfoldable pub init : D → SimTorquer D
  init max_dipole = record { max_dipole = max_dipole; current_dipole = vector_zero }

  unfoldable pub set_dipole : SimTorquer D → Vector3 D → SimTorquer D
  unfolding saturate
  set_dipole t v = record t {
    current_dipole = record {
      x = saturate t.max_dipole v.x;
      y = saturate t.max_dipole v.y;
      z = saturate t.max_dipole v.z;
    };
  }

  unfoldable pub stop : SimTorquer D → SimTorquer D
  stop t = record t { current_dipole = vector_zero }
