-- ===== src/Gnc/Pid.antt =====
-- src/fsw/gnc/control/PID.hpp: a PID controller of one axis with anti-windup and a saturated output.
use cubesat_fsw_gnc.Prelude.{Bool, true, false, if◌then◌else◌}
use cubesat_fsw_gnc.Double.{Double, lit, ◌⊕◌, ◌⊖◌, ◌⊗◌, ◌⊘◌, ◌≺◌, ◌≼◌, fmin, fmax}
pub mod Limits
pub mod Tests

pub record PidConfig (D : Type 0) : Type 0 where
  pub kp : D
  pub ki : D
  pub kd : D
  pub limit : D
  pub anti_windup_limit : D

pub record Pid (D : Type 0) : Type 0 where
  pub config : PidConfig D
  pub integral : D
  pub last_error : D
  pub last_output : D
  pub first_run : Bool

module _ {D : Type 0} ⦃d : Double D⦄ where
  unfoldable pub default_pid : PidConfig D
  default_pid = record {
    kp = lit 0 0;
    ki = lit 0 0;
    kd = lit 0 0;
    limit = lit 1000000000000 0;
    anti_windup_limit = lit 1000000000000 0;
  }

  unfoldable pub init : PidConfig D → Pid D
  init config = record {
    config = config;
    integral = lit 0 0;
    last_error = lit 0 0;
    last_output = lit 0 0;
    first_run = true;
  }

  -- `std::max(-limit, std::min(limit, a))`
  unfoldable pub clamp : D → D → D
  clamp limit a = fmax (d.neg limit) (fmin limit a)

  unfoldable pub i_term : Pid D → D → D → D
  i_term p error dt = clamp p.config.anti_windup_limit (p.config.ki ⊗ (p.integral ⊕ error ⊗ dt))

  unfoldable pub d_term : Pid D → D → D → D
  d_term p error dt = if p.first_run then lit 0 0 else p.config.kd ⊗ (error ⊖ p.last_error) ⊘ dt

  -- The new controller and the effort.
  unfoldable pub calculate : Pid D → D → D → Pid D × D
  calculate p error dt =
      if dt ≼ lit 0 0
      then (p, p.last_output)
      else let integral = p.integral ⊕ error ⊗ dt in
        let i = i_term p error dt in
        let output = clamp p.config.limit (p.config.kp ⊗ error ⊕ i ⊕ d_term p error dt) in
        (
          record {
            config = p.config;
            integral = if lit 1 9 ≺ d.abs p.config.ki then i ⊘ p.config.ki else integral;
            last_error = error;
            last_output = output;
            first_run = false;
          },
          output,
        )

  unfoldable pub reset : Pid D → Pid D
  reset p = record p { integral = lit 0 0; last_error = lit 0 0; first_run = true }

  unfoldable pub set_gains : Pid D → D → D → D → Pid D
  set_gains p kp ki kd = record p { config = record p.config { kp = kp; ki = ki; kd = kd } }
