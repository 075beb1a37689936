-- ===== src/Sim/RigidBody.antt =====
-- src/sim/dynamics/RigidBody.hpp and RigidBody.cpp: the attitude and the angular velocity of the
-- satellite. The state is a column of the quaternion's coefficients x, y, z, w and the velocity.
use cubesat_fsw_gnc.Sim.Integrator.{matrix_state, rk4}
use cubesat_fsw_gnc.Double.{◌⊗◌, lit, Double}
use cubesat_fsw_gnc.Eigen.{Eigen, Quaternion, Vector3}
use cubesat_fsw_gnc.Linear.{Matrices}

pub record RigidBody (M : Type 0) : Type 0 where
  pub inertia : M
  pub inertia_inv : M
  pub state : M

module _ {D M : Type 0} ⦃m : Matrices D M⦄ where
  unfoldable pub init : M → Quaternion D → Vector3 D → RigidBody M
  init inertia init_att init_omega = record {
    inertia = inertia;
    inertia_inv = m.inverse inertia;
    state = m.stack_coeffs init_att init_omega;
  }

  -- `a * v` of a 3x3 matrix
  unfoldable pub times_vector : M → Vector3 D → Vector3 D
  times_vector a v = m.segment3 (m.mul a (m.of_vector3 v)) 0

  unfoldable pub get_attitude : RigidBody M → Quaternion D
  get_attitude b = m.coeffs b.state

  unfoldable pub get_angular_velocity : RigidBody M → Vector3 D
  get_angular_velocity b = m.segment3 b.state 4

module _ {D : Type 0} ⦃d : Double D⦄ ⦃e : Eigen D⦄ where
  -- The rate of the quaternion, `0.5 * q * rate`.
  unfoldable pub attitude_rate : Quaternion D → Vector3 D → Quaternion D
  attitude_rate q rate =
      let rate_q : Quaternion D = record { w = lit 0 0; x = rate.x; y = rate.y; z = rate.z } in
      let q_dot = e.compose q rate_q in
      record {
        w = q_dot.w ⊗ lit 5 1;
        x = q_dot.x ⊗ lit 5 1;
        y = q_dot.y ⊗ lit 5 1;
        z = q_dot.z ⊗ lit 5 1;
      }

module _ {D M : Type 0} ⦃d : Double D⦄ ⦃e : Eigen D⦄ ⦃m : Matrices D M⦄ where
  -- The derivative of the state under external and internal torque and internal momentum.
  unfoldable pub dynamics : RigidBody M → D → M → Vector3 D → Vector3 D → Vector3 D → M
  dynamics b t y external internal momentum =
      let q = e.normalize (m.coeffs y) in
      let rate = m.segment3 y 4 in
      let total_h = e.add (times_vector b.inertia rate) momentum in
      let w_cross_h = e.cross rate total_h in
      let torque = e.sub (e.add external internal) w_cross_h in
      m.stack_coeffs (attitude_rate q rate) (times_vector b.inertia_inv torque)

  unfoldable pub step : RigidBody M → D → Vector3 D → Vector3 D → Vector3 D → RigidBody M
  step b dt external internal momentum =
      let y = rk4 (lit 0 0) b.state dt (λ t y. dynamics b t y external internal momentum) in
      record b { state = m.stack_coeffs (e.normalize (m.coeffs y)) (m.segment3 y 4) }
