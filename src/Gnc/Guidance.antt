-- ===== src/Gnc/Guidance.antt =====
-- src/fsw/gnc/guidance/PointingStrategies.hpp: target attitudes from directions.
use cubesat_fsw_gnc.Prelude.{if◌then◌else◌}
use cubesat_fsw_gnc.Double.{Double, lit, ◌≺◌}
use cubesat_fsw_gnc.Eigen.{Eigen, Vector3, Quaternion, quaternion_identity}

module _ {D : Type 0} ⦃d : Double D⦄ ⦃e : Eigen D⦄ where
  -- `common::PI`
  abbrev pub pi : D
  pi = lit 314159265358979323846 20

  unfoldable pub align_axis : Vector3 D → Vector3 D → Quaternion D
  align_axis body_axis inertial_target =
      let b = e.normalized body_axis in
      let i = e.normalized inertial_target in
      let ortho : Vector3 D =
        if d.abs b.x ≺ lit 9 1
        then record { x = lit 1 0; y = lit 0 0; z = lit 0 0 }
        else record { x = lit 0 0; y = lit 1 0; z = lit 0 0 } in
      if e.norm (e.cross b i) ≺ lit 1 9
      then (if lit 0 0 ≺ e.dot b i
          then quaternion_identity
          else e.of_angle_axis pi (e.normalized (e.cross b ortho)))
      else e.from_two_vectors b i

  unfoldable pub nadir_pointing : Vector3 D → Vector3 D → Quaternion D
  nadir_pointing sc_pos_eci sc_vel_eci =
      let z_body = e.negate (e.normalized sc_pos_eci) in
      let y_body = e.normalized (e.cross sc_pos_eci sc_vel_eci) in
      let x_body = e.normalized (e.cross y_body z_body) in e.of_columns x_body y_body z_body
