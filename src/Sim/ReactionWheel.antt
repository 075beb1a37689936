-- ===== src/Sim/ReactionWheel.antt =====
-- src/sim/models/SimRW.hpp and SimRW.cpp: a reaction wheel with faults.
pub mod Faults
pub mod Tests
use cubesat_fsw_gnc.Prelude.{ℕ, Bool, true, false, ◌&&◌, ◌||◌, ◌==◌, if◌then◌else◌}
use cubesat_fsw_gnc.Double.{Double, lit, ◌⊕◌, ◌⊖◌, ◌⊗◌, ◌⊘◌, ◌≺◌, ◌≼◌}
use cubesat_fsw_gnc.Sim.Torquer.{saturate}

pub data FaultType : Type 0 where
  none stuck saturated degraded_torque : FaultType

abbrev fault_index : FaultType → ℕ
fault_index none = 0
fault_index stuck = 1
fault_index saturated = 2
fault_index degraded_torque = 3

abbrev pub same_fault : FaultType → FaultType → Bool
same_fault a b = fault_index a == fault_index b

pub record WheelConfig (D : Type 0) : Type 0 where
  pub inertia : D
  pub max_torque : D
  pub max_momentum : D
  pub friction_coeff : D
  pub initial_speed : D

pub record SimWheel (D : Type 0) : Type 0 where
  pub config : WheelConfig D
  pub current_speed : D
  pub commanded_torque : D
  pub is_dead : Bool
  pub efficiency : D
  pub fault_type : FaultType
  pub stuck_speed : D

module _ {D : Type 0} ⦃d : Double D⦄ where
  unfoldable pub init : WheelConfig D → SimWheel D
  init config = record {
    config = config;
    current_speed = config.initial_speed;
    commanded_torque = lit 0 0;
    is_dead = false;
    efficiency = lit 1 0;
    fault_type = none;
    stuck_speed = lit 0 0;
  }

  unfoldable pub set_torque_command : SimWheel D → D → SimWheel D
  unfolding saturate
  set_torque_command w torque = record w { commanded_torque = saturate w.config.max_torque torque }

  unfoldable pub get_angular_momentum : SimWheel D → D
  get_angular_momentum w = w.config.inertia ⊗ w.current_speed

  unfoldable pub stop : SimWheel D → SimWheel D
  stop w = record w { commanded_torque = lit 0 0 }

  -- The speed after the test of the momentum limit.
  unfoldable pub limited_speed : SimWheel D → D
  limited_speed w =
      let max_speed = w.config.max_momentum ⊘ w.config.inertia in
      if same_fault w.fault_type saturated
      then (if lit 0 0 ≼ w.current_speed then max_speed else d.neg max_speed)
      else w.current_speed

  -- The net torque after that test, which at the limit does not drive the wheel further.
  unfoldable pub limited_torque : SimWheel D → D → D
  unfolding limited_speed get_angular_momentum
  limited_torque w net_torque =
      let speed = limited_speed w in
      if (w.config.max_momentum ≼ d.abs (get_angular_momentum w))
        || same_fault w.fault_type saturated
      then (if (lit 0 0 ≺ speed) && (lit 0 0 ≺ net_torque)
          then lit 0 0
          else (if (speed ≺ lit 0 0) && (net_torque ≺ lit 0 0) then lit 0 0 else net_torque))
      else net_torque

  -- The wheel after the step, and the torque on the body.
  unfoldable pub step : SimWheel D → D → SimWheel D × D
  step w dt =
      let w1 = if w.is_dead then record w { commanded_torque = lit 0 0 } else w in
      let friction_torque = w1.config.friction_coeff ⊗ w1.current_speed in
      let net_torque = limited_torque w1 (w1.commanded_torque ⊗ w1.efficiency ⊖ friction_torque) in
      if same_fault w1.fault_type stuck
      then (record w1 { current_speed = w1.stuck_speed }, lit 0 0)
      else (
        record w1 { current_speed = limited_speed w1 ⊕ net_torque ⊘ w1.config.inertia ⊗ dt },
        d.neg net_torque,
      )

  unfoldable pub inject_fault_saturated : SimWheel D → SimWheel D
  inject_fault_saturated w = record w {
    fault_type = saturated;
    current_speed = w.config.max_momentum ⊘ w.config.inertia;
  }

  unfoldable pub reset_faults : SimWheel D → SimWheel D
  reset_faults w = record w {
    is_dead = false;
    fault_type = none;
    efficiency = lit 1 0;
    stuck_speed = lit 0 0;
  }

module _ {D : Type 0} where
  unfoldable pub set_speed : SimWheel D → D → SimWheel D
  set_speed w speed = record w { current_speed = speed }

  unfoldable pub inject_failure_dead : SimWheel D → SimWheel D
  inject_failure_dead w = record w { is_dead = true }

  unfoldable pub set_efficiency : SimWheel D → D → SimWheel D
  set_efficiency w efficiency = record w { efficiency = efficiency }

  unfoldable pub inject_fault_stuck : SimWheel D → D → SimWheel D
  inject_fault_stuck w speed = record w {
    fault_type = stuck;
    stuck_speed = speed;
    current_speed = speed;
  }

  unfoldable pub inject_fault_degraded_torque : SimWheel D → D → SimWheel D
  inject_fault_degraded_torque w efficiency = record w {
    fault_type = degraded_torque;
    efficiency = efficiency;
  }
