-- ===== src/Sim/Magnetometer.antt =====
-- src/sim/models/SimMagnetometer.hpp and SimMagnetometer.cpp: a magnetometer in the dipole field of
-- the Earth.
use cubesat_fsw_gnc.Eigen.{Quaternion, vector_zero, Eigen, Vector3}
use cubesat_fsw_gnc.Double.{◌⊘◌, ◌⊗◌, Libm, lit, Double}
use cubesat_fsw_gnc.Sim.Noise.{add_noise, Noise}
use cubesat_fsw_gnc.Sim.Orbit.{pi}
use cubesat_fsw_gnc.Prelude.{Bool, true, false, if◌then◌else◌}

pub record MagnetometerConfig (D : Type 0) : Type 0 where
  pub enable_earth_rotation : Bool
  pub use_tilted_dipole : Bool
  pub noise_std : D
  pub bias : Vector3 D

pub record SimMagnetometer (D G : Type 0) : Type 0 where
  pub config : MagnetometerConfig D
  pub sim_time : D
  pub is_dead : Bool
  pub scaling_factor : D
  pub gen : G

module _ {D : Type 0} ⦃d : Double D⦄ where
  unfoldable pub default_config : MagnetometerConfig D
  default_config = record {
    enable_earth_rotation = true;
    use_tilted_dipole = false;
    noise_std = lit 0 0;
    bias = vector_zero;
  }

  unfoldable pub init : {G : Type 0} → MagnetometerConfig D → G → SimMagnetometer D G
  init config gen = record {
    config = config;
    sim_time = lit 0 0;
    is_dead = false;
    scaling_factor = lit 1 0;
    gen = gen;
  }

  unfoldable pub omega_earth : D
  omega_earth = lit 72921159 12

  unfoldable pub dipole_tilt : D
  unfolding pi
  dipole_tilt = lit 11 0 ⊗ pi ⊘ lit 180 0

module _ {D G : Type 0} where
  unfoldable pub set_time : SimMagnetometer D G → D → SimMagnetometer D G
  set_time s time_sec = record s { sim_time = time_sec }

  unfoldable pub inject_failure_dead : SimMagnetometer D G → SimMagnetometer D G
  inject_failure_dead s = record s { is_dead = true }

  unfoldable pub set_scaling_factor : SimMagnetometer D G → D → SimMagnetometer D G
  set_scaling_factor s factor = record s { scaling_factor = factor }

module _ {D : Type 0} ⦃d : Double D⦄ ⦃l : Libm D⦄ where
  -- The direction of the tilted dipole after a turn by `theta`.
  unfoldable pub tilted_dipole : D → Vector3 D
  unfolding dipole_tilt
  tilted_dipole theta =
      let cos_theta = l.cos theta in
      let sin_theta = l.sin theta in
      let cos_tilt = l.cos dipole_tilt in
      let sin_tilt = l.sin dipole_tilt in
      record { x = d.neg sin_tilt ⊗ cos_theta; y = d.neg sin_tilt ⊗ sin_theta; z = d.neg cos_tilt }

  -- The direction of the dipole: without rotation or tilt it is -Z.
  unfoldable pub dipole : MagnetometerConfig D → D → Vector3 D
  unfolding omega_earth tilted_dipole
  dipole c time_sec =
      let straight : Vector3 D = record { x = lit 0 0; y = lit 0 0; z = d.neg (lit 1 0) } in
      if c.enable_earth_rotation
      then (if c.use_tilted_dipole then tilted_dipole (omega_earth ⊗ time_sec) else straight)
      else straight

module _ {D : Type 0} ⦃d : Double D⦄ ⦃e : Eigen D⦄ ⦃l : Libm D⦄ where
  -- The field at an inertial position.
  unfoldable pub compute_dipole_field : MagnetometerConfig D → Vector3 D → D → Vector3 D
  compute_dipole_field c pos_eci time_sec =
      let b0 = lit 312 7 in
      let re = lit 6371000 0 in
      let r = e.norm pos_eci in
      let r_hat = e.normalized pos_eci in
      let m = dipole c time_sec in
      let factor = b0 ⊗ l.pow (re ⊘ r) (lit 3 0) in
      e.scale factor (e.sub (e.scale (lit 3 0 ⊗ e.dot m r_hat) r_hat) m)

module _ {D G : Type 0} ⦃d : Double D⦄ ⦃e : Eigen D⦄ ⦃l : Libm D⦄ ⦃n : Noise D G⦄ where
  -- The reading at a position and an attitude, and the magnetometer after it.
  unfoldable pub read :
      SimMagnetometer D G → Vector3 D → Quaternion D → Vector3 D × SimMagnetometer D G
  unfolding add_noise
  read s pos_eci attitude =
      let b_eci = compute_dipole_field s.config pos_eci s.sim_time in
      let b_body = e.rotate (e.conjugate attitude) b_eci in
      let measured = e.add b_body s.config.bias in
      let (noisy, gen) = add_noise s.config.noise_std measured s.gen in
      if s.is_dead then (vector_zero, s) else (noisy, record s { gen = gen })
