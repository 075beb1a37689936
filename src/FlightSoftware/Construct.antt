-- ===== src/FlightSoftware/Construct.antt =====
-- The constructor of src/fsw/FlightSoftware.cpp over the factory, and the configuration with which
-- src/opt/FitnessEvaluator.hpp calls it.
use cubesat_fsw_gnc.Double.{lit, Double}
use cubesat_fsw_gnc.Prelude.{Option, none, some}
use cubesat_fsw_gnc.Core.ModeManager.{default_config, ModeTransitionConfig}
use cubesat_fsw_gnc.Telemetry.Service.{Counts}
use cubesat_fsw_gnc.Core.DataStore.{DataStore}
use cubesat_fsw_gnc.Linear.{Matrices}
use cubesat_fsw_gnc.Eigen.{Eigen, Vector3}
use cubesat_fsw_gnc.FlightSoftware.State
use cubesat_fsw_gnc.FlightSoftware.State.{FlightSoftware, Subscribers}
use cubesat_fsw_gnc.Gnc.Factory.{
  EstimatorEntries, ControllerEntries, AnyController, create_controller, create_estimator,
}
use cubesat_fsw_gnc.Gnc.Mekf.{Mekf}
use cubesat_fsw_gnc.Gnc.Interfaces.{State}
use cubesat_fsw_gnc.Prelude.Options.{◌>>=◌}

-- The configuration, with the entries of "fsw" that the constructor looks up.
pub record FlightConfig (D : Type 0) : Type 0 where
  pub mode_cfg : ModeTransitionConfig D
  pub sun_inertial : Vector3 D
  pub estimator : Option (EstimatorEntries D)
  pub attitude : Option (ControllerEntries D)
  pub detumble : Option (ControllerEntries D)

-- A controller whose entries may be missing.
unfoldable pub optional_controller :
    {D : Type 0} → ⦃d : Double D⦄ → Option (ControllerEntries D) → Option (AnyController D)
optional_controller none = none
optional_controller (some entries) = create_controller entries

module _ {D M : Type 0} ⦃d : Double D⦄ ⦃e : Eigen D⦄ ⦃m : Matrices D M⦄ where
  unfoldable pub optional_estimator : Option (EstimatorEntries D) → Option (Option (Mekf D M))
  optional_estimator none = some none
  optional_estimator (some entries) = create_estimator entries

  -- `none` is an exception of the factory. The store has the subscriptions that were made before.
  unfoldable pub construct :
      FlightConfig D
      → DataStore D (Subscribers D (AnyController D))
      → Counts
      → State D
      → Option (FlightSoftware D (Mekf D M) (AnyController D) M)
  unfolding optional_estimator optional_controller State.init
  construct c store counts unset = do
    estimator ← optional_estimator c.estimator
    some (
        State.init c.mode_cfg c.sun_inertial estimator (optional_controller c.attitude)
          (optional_controller c.detumble) store counts unset)

module _ {D : Type 0} ⦃d : Double D⦄ where
  -- The configuration that an evaluation makes of three gains.
  unfoldable pub evaluator_config : D → D → D → FlightConfig D
  evaluator_config kp ki kd = record {
    mode_cfg = record default_config { safe_to_nominal_rate_threshold = lit 1 0 };
    sun_inertial = record { x = lit 1 0; y = lit 0 0; z = lit 0 0 };
    estimator = none;
    attitude = some (record {
      kind = some "PID";
      nominal_pid =
          some (record { kp = kp; ki = ki; kd = kd; limit = none; anti_windup_limit = none });
      gain = none;
    });
    detumble = none;
  }
