-- ===== src/Gnc/Factory.antt =====
-- src/fsw/gnc/GNCComponentFactory.hpp: the components that a configuration asks for. JSON is a
-- third-party library's: records hold the entries that the factory looks up, `none` for a missing one.
-- An entry of another type, which throws, is left out.
use cubesat_fsw_gnc.Prelude.{ℕ, Option, none, some, List, [], ◌∷◌, get_elem?, if◌then◌else◌}
use cubesat_fsw_gnc.Eigen.{Vector3, vector_zero, quaternion_identity, Eigen}
use cubesat_fsw_gnc.Double.{Libm, lit, Double}
use cubesat_fsw_gnc.Linear.{Matrices}
use Prim.Native.String.{String}
use mathlib.Core.Option
use text.Mathlib.Text.{◌==◌ as str_eq}
use cubesat_fsw_gnc.Prelude.Options.{◌>>=◌}
use cubesat_fsw_gnc.Gnc.Mekf
use cubesat_fsw_gnc.Gnc.Bdot
use cubesat_fsw_gnc.Gnc.AttitudeController
use cubesat_fsw_gnc.Gnc.Interfaces.{Controller, SensorData, State, GuidanceTarget}
use cubesat_fsw_gnc.Gnc.AttitudeController.{
  AttitudeController, AttitudeConfig, default_attitude, attitude_controller,
}
use cubesat_fsw_gnc.Gnc.Bdot.{Bdot, bdot}
use cubesat_fsw_gnc.Gnc.Mekf.{Mekf, initialize}

pub record PidEntries (D : Type 0) : Type 0 where
  pub kp : D
  pub ki : D
  pub kd : D
  pub limit : Option D
  pub anti_windup_limit : Option D

pub record ControllerEntries (D : Type 0) : Type 0 where
  pub kind : Option String
  pub nominal_pid : Option (PidEntries D)
  pub gain : Option D

pub record EstimatorEntries (D : Type 0) : Type 0 where
  pub kind : Option String
  pub p0_diag : Option (List D)

-- What a pointer to `IController` may point to.
pub data AnyController (D : Type 0) : Type 0 where
  attitude_control : AttitudeController D → AnyController D
  bdot_control : Bdot D → AnyController D

module _ {D : Type 0} ⦃d : Double D⦄ where
  -- The configuration of a "PID" controller.
  unfoldable pub attitude_config : Option (PidEntries D) → AttitudeConfig D
  attitude_config none = default_attitude
  attitude_config (some p) = record default_attitude {
    nominal_pid = record {
      kp = p.kp;
      ki = p.ki;
      kd = p.kd;
      limit = Option.get_or p.limit (lit 1 0);
      anti_windup_limit = Option.get_or p.anti_windup_limit (lit 5 1);
    };
  }

  -- `none` is the null pointer.
  unfoldable pub create_controller : ControllerEntries D → Option (AnyController D)
  unfolding attitude_config AttitudeController.init Bdot.init
  create_controller c = c.kind >>= λ kind.
      if str_eq kind "PID"
      then some (attitude_control (AttitudeController.init (attitude_config c.nominal_pid)))
      else (if str_eq kind "Bdot"
          then some (bdot_control (Bdot.init (Option.get_or c.gain (lit 1 0))))
          else none)

module _ {D M : Type 0} ⦃m : Matrices D M⦄ where
  -- `P0(i, i) = config["p0_diag"][i]` for the indices of a list; a missing entry throws.
  unfoldable pub fill_diagonal : List ℕ → List D → M → Option M
  fill_diagonal [] diag p0 = some p0
  fill_diagonal (i ∷ is) diag p0 = do
    a ← get_elem? diag i
    fill_diagonal is diag (m.set_at p0 i i a)

module _ {D M : Type 0} ⦃d : Double D⦄ ⦃e : Eigen D⦄ ⦃m : Matrices D M⦄ where
  unfoldable pub create_mekf : Option (List D) → Option (Mekf D M)
  unfolding fill_diagonal Mekf.init
  create_mekf none = some Mekf.init
  create_mekf (some diag) = do
    p0 ← fill_diagonal (0 ∷ 1 ∷ 2 ∷ 3 ∷ 4 ∷ 5 ∷ []) diag (m.identity 6)
    some (initialize Mekf.init quaternion_identity vector_zero p0)

  -- `none` is an exception, `some none` the null pointer.
  unfoldable pub create_estimator : EstimatorEntries D → Option (Option (Mekf D M))
  unfolding create_mekf
  create_estimator c =
      let made = (do f ← create_mekf c.p0_diag; some (some f)) in
      elim c.kind [ none ↦ some none | some kind ↦ if str_eq kind "MEKF" then made else some none ]

module _ {D : Type 0} ⦃d : Double D⦄ ⦃e : Eigen D⦄ ⦃l : Libm D⦄ where
  unfoldable pub update :
      AnyController D → SensorData D → State D → GuidanceTarget D → D → AnyController D × Vector3 D
  update (attitude_control c) sensors state target dt =
      let (c1, torque) = AttitudeController.update c sensors state target dt in
      (attitude_control c1, torque)
  update (bdot_control c) sensors state target dt =
      let (c1, torque) = Bdot.update c sensors state target dt in (bdot_control c1, torque)

  unfoldable pub reset : AnyController D → AnyController D
  reset (attitude_control c) = attitude_control (AttitudeController.reset c)
  reset (bdot_control c) = bdot_control (Bdot.reset c)

  -- The calls through the pointer.
  instance abbrev pub any_controller : Controller D (AnyController D)
  any_controller = record { update = update; reset = reset }
