-- ===== src/Gnc/Interfaces.antt =====
-- src/fsw/gnc/interfaces, and the data of src/common that crosses them: the abstract classes
-- IEstimator and IController as records of the operations on a state of type `E` or `C`.
use cubesat_fsw_gnc.Prelude.{List}
use cubesat_fsw_gnc.Eigen.{Vector3, Quaternion}
use Prim.Native.String.{String}

pub record SensorData (D : Type 0) : Type 0 where
  pub mag_body : Vector3 D
  pub gyro_body : Vector3 D
  pub q_measured : Quaternion D
  pub sun_body : Vector3 D
  pub rw_speeds : List D
  pub rw_torques_prev : List D

pub record State (D : Type 0) : Type 0 where
  pub q : Quaternion D
  pub w : Vector3 D
  pub pos : Vector3 D
  pub vel : Vector3 D

pub record GuidanceTarget (D : Type 0) : Type 0 where
  pub q : Quaternion D
  pub w : Vector3 D
  pub mode : String

pub record Estimator (D E : Type 0) : Type 0 where
  pub update : E → SensorData D → D → E
  pub get_attitude : E → Quaternion D
  pub get_angular_velocity : E → Vector3 D
  pub reset : E → E

pub record Controller (D C : Type 0) : Type 0 where
  pub update : C → SensorData D → State D → GuidanceTarget D → D → C × Vector3 D
  pub reset : C → C
