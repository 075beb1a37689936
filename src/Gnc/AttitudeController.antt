-- ===== src/Gnc/AttitudeController.antt =====
-- src/fsw/gnc/control/AttitudeController.hpp: three PID axes with scheduled gains, damping by the
-- rate, and a limit on the change of the torque.
use cubesat_fsw_gnc.Prelude.{Bool, true, if◌then◌else◌}
use cubesat_fsw_gnc.Double.{Double, Libm, lit, ◌⊕◌, ◌⊖◌, ◌⊗◌, ◌⊘◌, ◌≺◌, ◌≼◌, fmin}
use cubesat_fsw_gnc.Eigen.{Eigen, Vector3, Quaternion, vector_zero}
use cubesat_fsw_gnc.Gnc.Interfaces.{SensorData, State, GuidanceTarget, Controller}
use cubesat_fsw_gnc.Gnc.Pid
use cubesat_fsw_gnc.Gnc.Pid.{PidConfig, Pid}
pub mod Gains
pub mod Tests

pub record AttitudeConfig (D : Type 0) : Type 0 where
  pub nominal_pid : PidConfig D
  pub large_error_pid : PidConfig D
  pub max_torque_rate : D
  pub max_angular_accel : D
  pub small_error_threshold : D
  pub large_error_threshold : D
  pub rate_feedback_gain : D

pub record AttitudeController (D : Type 0) : Type 0 where
  pub config : AttitudeConfig D
  pub pid_roll : Pid D
  pub pid_pitch : Pid D
  pub pid_yaw : Pid D
  pub last_torque_cmd : Vector3 D

module _ {D : Type 0} ⦃d : Double D⦄ where
  unfoldable pub default_attitude : AttitudeConfig D
  default_attitude = record {
    nominal_pid = record {
      kp = lit 1 0;
      ki = lit 1 2;
      kd = lit 1 1;
      limit = lit 1 0;
      anti_windup_limit = lit 5 1;
    };
    large_error_pid = record {
      kp = lit 5 1;
      ki = lit 0 0;
      kd = lit 2 1;
      limit = lit 1 0;
      anti_windup_limit = lit 5 1;
    };
    max_torque_rate = lit 5 1;
    max_angular_accel = lit 1 1;
    small_error_threshold = lit 175 3;
    large_error_threshold = lit 524 3;
    rate_feedback_gain = lit 5 2;
  }

  -- The subscription to new gains is `subscribe_gains` of Core.CommandManager.
  unfoldable pub init : AttitudeConfig D → AttitudeController D
  unfolding Pid.init
  init config = record {
    config = config;
    pid_roll = Pid.init config.nominal_pid;
    pid_pitch = Pid.init config.nominal_pid;
    pid_yaw = Pid.init config.nominal_pid;
    last_torque_cmd = vector_zero;
  }

  unfoldable pub set_all_gains : AttitudeController D → D → D → D → AttitudeController D
  unfolding Pid.set_gains
  set_all_gains c kp ki kd = record c {
    pid_roll = Pid.set_gains c.pid_roll kp ki kd;
    pid_pitch = Pid.set_gains c.pid_pitch kp ki kd;
    pid_yaw = Pid.set_gains c.pid_yaw kp ki kd;
  }

  unfoldable pub set_gains : AttitudeController D → D → D → D → Bool → AttitudeController D
  unfolding set_all_gains
  set_gains c kp ki kd is_nominal =
      if is_nominal
      then set_all_gains
          (record c {
            config = record c.config {
              nominal_pid = record c.config.nominal_pid { kp = kp; ki = ki; kd = kd };
            };
          })
          kp ki kd
      else record c {
        config = record c.config {
          large_error_pid = record c.config.large_error_pid { kp = kp; ki = ki; kd = kd };
        };
      }

  unfoldable pub reset : AttitudeController D → AttitudeController D
  unfolding Pid.reset
  reset c = record c {
    pid_roll = Pid.reset c.pid_roll;
    pid_pitch = Pid.reset c.pid_pitch;
    pid_yaw = Pid.reset c.pid_yaw;
    last_torque_cmd = vector_zero;
  }

  unfoldable pub compute_gain_factor : AttitudeConfig D → D → D
  compute_gain_factor c angle =
      if angle ≼ c.small_error_threshold
      then lit 1 0
      else (if c.large_error_threshold ≼ angle
          then lit 0 0
          else lit 1 0
            ⊖ (angle ⊖ c.small_error_threshold)
              ⊘ (c.large_error_threshold ⊖ c.small_error_threshold))

  -- The proportional and derivative gains are mixed; the integral gain is the nominal one.
  unfoldable pub scheduled_config : AttitudeConfig D → D → PidConfig D
  scheduled_config c alpha =
      if alpha ≺ lit 1 0
      then record c.nominal_pid {
        kp = alpha ⊗ c.nominal_pid.kp ⊕ (lit 1 0 ⊖ alpha) ⊗ c.large_error_pid.kp;
        kd = alpha ⊗ c.nominal_pid.kd ⊕ (lit 1 0 ⊖ alpha) ⊗ c.large_error_pid.kd;
      }
      else c.nominal_pid

module _ {D : Type 0} ⦃d : Double D⦄ ⦃e : Eigen D⦄ where
  abbrev vec : Quaternion D → Vector3 D
  vec q = record { x = q.x; y = q.y; z = q.z }

  abbrev minus : D → D
  minus a = a ⊗ d.neg (lit 1 0)

  -- The rotation to the target in the body frame, on the shortest path.
  unfoldable pub attitude_error : Quaternion D → Quaternion D → Quaternion D
  attitude_error current target =
      let q = e.compose (e.inverse current) target in
      if q.w ≺ lit 0 0
      then record { w = minus q.w; x = minus q.x; y = minus q.y; z = minus q.z }
      else q

  unfoldable pub error_angle : ⦃libm : Libm D⦄ → Quaternion D → D
  error_angle ⦃libm⦄ q = lit 2 0 ⊗ libm.acos (fmin (lit 1 0) (d.abs q.w))

  unfoldable pub error_vec : ⦃libm : Libm D⦄ → Quaternion D → D → Vector3 D
  error_vec ⦃libm⦄ q angle =
      let sin_half = libm.sin (angle ⊘ lit 2 0) in
      if angle ≺ lit 1 6
      then e.scale (lit 2 0) (vec q)
      else (if lit 1 9 ≺ d.abs sin_half
          then e.scale (angle ⊘ sin_half) (vec q)
          else e.scale (lit 2 0) (vec q))

  unfoldable pub apply_rate_limiting :
      AttitudeController D → Vector3 D → D → AttitudeController D × Vector3 D
  apply_rate_limiting c desired dt =
      if dt ≼ lit 0 0
      then (c, c.last_torque_cmd)
      else let torque_delta = e.sub desired c.last_torque_cmd in
        let delta_norm = e.norm torque_delta in
        let max_delta = c.config.max_torque_rate ⊗ dt in
        let limited =
          if max_delta ≺ delta_norm
          then e.scale (max_delta ⊘ delta_norm) torque_delta
          else torque_delta in
        let limited_torque = e.add c.last_torque_cmd limited in
        (record c { last_torque_cmd = limited_torque }, limited_torque)

  -- The efforts of the three axes for an error vector.
  unfoldable pub pid_torques :
      AttitudeController D → Vector3 D → D → AttitudeController D × Vector3 D
  pid_torques c v dt =
      let (roll, tx) = Pid.calculate c.pid_roll v.x dt in
      let (pitch, ty) = Pid.calculate c.pid_pitch v.y dt in
      let (yaw, tz) = Pid.calculate c.pid_yaw v.z dt in
      (
        record c { pid_roll = roll; pid_pitch = pitch; pid_yaw = yaw },
        record { x = tx; y = ty; z = tz },
      )

  -- The gains for an error angle, on all three axes.
  unfoldable pub schedule : AttitudeController D → D → AttitudeController D
  unfolding set_all_gains
  schedule c angle =
      let g = scheduled_config c.config (compute_gain_factor c.config angle) in
      set_all_gains c g.kp g.ki g.kd

  unfoldable pub update :
      ⦃libm : Libm D⦄
      → AttitudeController D
      → SensorData D
      → State D
      → GuidanceTarget D
      → D
      → AttitudeController D × Vector3 D
  update c sensors state target dt =
      let q_err = attitude_error state.q target.q in
      let angle = error_angle q_err in
      let (steered, torque_pid) = pid_torques (schedule c angle) (error_vec q_err angle) dt in
      let damping = e.scale (d.neg c.config.rate_feedback_gain) (e.sub state.w target.w) in
      apply_rate_limiting steered (e.add torque_pid damping) dt

  -- The implementation of the abstract controller.
  abbrev pub attitude_controller : ⦃libm : Libm D⦄ → Controller D (AttitudeController D)
  attitude_controller = record { update = update; reset = reset }
