-- ===== src/Gnc/Bdot.antt =====
-- src/fsw/gnc/control/Bdot.cpp: detumbling by the change of the magnetic field.
use cubesat_fsw_gnc.Prelude.{Bool, true, false, List, [], ◌∷◌, ◌≡◌, refl, if◌then◌else◌}
use cubesat_fsw_gnc.Double.{Double, lit, ◌≼◌}
use cubesat_fsw_gnc.Eigen.{Eigen, Vector3, vector_zero}
use cubesat_fsw_gnc.Gnc.Interfaces.{SensorData, State, GuidanceTarget, Controller}
pub mod Trace
pub mod Tests

pub record Bdot (D : Type 0) : Type 0 where
  pub gain : D
  pub b_prev : Vector3 D
  pub first_run : Bool

module _ {D : Type 0} ⦃d : Double D⦄ where
  unfoldable pub init : D → Bdot D
  init gain = record { gain = gain; b_prev = vector_zero; first_run = true }

  unfoldable pub reset : Bdot D → Bdot D
  reset c = record c { first_run = true; b_prev = vector_zero }

module _ {D : Type 0} ⦃d : Double D⦄ ⦃e : Eigen D⦄ where
  unfoldable pub update :
      Bdot D → SensorData D → State D → GuidanceTarget D → D → Bdot D × Vector3 D
  update c sensors state target dt =
      if c.first_run
      then (record c { b_prev = sensors.mag_body; first_run = false }, vector_zero)
      else (if dt ≼ lit 1 6
          then (c, vector_zero)
          else let b_dot = e.divide (e.sub sensors.mag_body c.b_prev) dt in
            (record c { b_prev = sensors.mag_body }, e.scale (d.neg c.gain) b_dot))

  -- The implementation of the abstract controller.
  abbrev pub bdot : Controller D (Bdot D)
  bdot = record { update = update; reset = reset }
