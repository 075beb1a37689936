-- ===== src/Fdir/Health.antt =====
-- src/fsw/fdir/FDIRConfig.hpp: the health states and the sensors' detection parameters.
use cubesat_fsw_gnc.Prelude.{ℕ, Bool, true, ◌==◌, ◌≡◌, arith}
use cubesat_fsw_gnc.Double.{Double, lit}

pub data HealthStatus : Type 0 where
  healthy degraded failed : HealthStatus

-- The underlying value of the enumeration, which also goes into telemetry.
abbrev pub status_code : HealthStatus → ℕ
status_code healthy = 0
status_code degraded = 1
status_code failed = 2

abbrev pub same_status : HealthStatus → HealthStatus → Bool
same_status a b = status_code a == status_code b

pub eq_of_same_status : (a b : HealthStatus) → same_status a b ≡ true → a ≡ b
eq_of_same_status a b h = ground arith

pub record GyroHealthConfig (D : Type 0) : Type 0 where
  pub stuck_tolerance : D
  pub stuck_sample_count : ℕ
  pub max_rate : D
  pub max_rate_change : D
  pub dt : D

pub record MagnetometerHealthConfig (D : Type 0) : Type 0 where
  pub stuck_tolerance : D
  pub stuck_sample_count : ℕ
  pub min_field : D
  pub max_field : D
  pub max_field_change : D
  pub dt : D

module _ {D : Type 0} ⦃d : Double D⦄ where
  -- the default member values of the structs
  abbrev pub default_gyro : GyroHealthConfig D
  default_gyro = record {
    stuck_tolerance = lit 1 6;
    stuck_sample_count = 50;
    max_rate = lit 10 0;
    max_rate_change = lit 1 0;
    dt = lit 1 1;
  }

  abbrev pub default_magnetometer : MagnetometerHealthConfig D
  default_magnetometer = record {
    stuck_tolerance = lit 1 9;
    stuck_sample_count = 50;
    min_field = lit 1 6;
    max_field = lit 1 4;
    max_field_change = lit 1 5;
    dt = lit 1 1;
  }
