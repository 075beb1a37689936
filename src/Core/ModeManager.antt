-- ===== src/Core/ModeManager.antt =====
-- src/fsw/core/ModeManager.hpp and ModeManager.cpp: the mission mode state machine.
-- The registered callback is the flag `callback`, and `calls` holds the arguments of the calls made
-- to it, oldest first. Logging is left out.
pub mod Laws
mod Tests
use cubesat_fsw_gnc.Prelude.{
  ℕ, ◌+◌, ◌≡◌, Bool, true, false, not, List, [], ◌∷◌, ◌++◌, if◌then◌else◌, ◌==◌,
}
use cubesat_fsw_gnc.Double.{Double, lit, ◌⊕◌, ◌≺◌, ◌≼◌}
use cubesat_fsw_gnc.Eigen.{Eigen, Vector3}

pub data MissionMode : Type 0 where
  safe nominal science downlink degraded contingency : MissionMode

abbrev mode_index : MissionMode → ℕ
mode_index safe = 0
mode_index nominal = 1
mode_index science = 2
mode_index downlink = 3
mode_index degraded = 4
mode_index contingency = 5

abbrev pub same_mode : MissionMode → MissionMode → Bool
same_mode a b = mode_index a == mode_index b

pub record ModeTransitionConfig (D : Type 0) : Type 0 where
  pub safe_to_nominal_rate_threshold : D
  pub nominal_to_safe_rate_threshold : D
  pub min_time_in_mode : D

pub record ModeManager (D : Type 0) : Type 0 where
  pub current_mode : MissionMode
  pub previous_mode : MissionMode
  pub config : ModeTransitionConfig D
  pub open config use *
  pub time_in_current_mode : D
  pub callback : Bool
  pub calls : List (MissionMode × MissionMode)

module _ {D : Type 0} ⦃d : Double D⦄ where
  -- the default member values of the struct
  abbrev pub default_config : ModeTransitionConfig D
  default_config = record {
    safe_to_nominal_rate_threshold = lit 2 2;
    nominal_to_safe_rate_threshold = lit 1 1;
    min_time_in_mode = lit 10 0;
  }

  unfoldable pub init : ModeTransitionConfig D → ModeManager D
  init c = record {
    current_mode = safe;
    previous_mode = safe;
    config = c;
    time_in_current_mode = lit 0 0;
    callback = false;
    calls = [];
  }

  unfoldable pub transition_to_mode : ModeManager D → MissionMode → ModeManager D
  transition_to_mode m new = if same_mode new m.current_mode then m else record m {
    current_mode = new;
    previous_mode = m.current_mode;
    time_in_current_mode = lit 0 0;
    calls = if m.callback then m.calls ++ (m.current_mode, new) ∷ [] else m.calls;
  }

  unfoldable pub can_transition : ModeManager D → Bool
  can_transition m = m.min_time_in_mode ≼ m.time_in_current_mode

  -- The `switch` of `evaluateTransitions`, over the norm of the angular velocity.
  unfoldable pub target_mode : ModeTransitionConfig D → D → MissionMode → MissionMode
  target_mode c rate safe = if rate ≺ c.safe_to_nominal_rate_threshold then nominal else safe
  target_mode c rate nominal = if c.nominal_to_safe_rate_threshold ≺ rate then safe else nominal
  target_mode c rate science = if c.nominal_to_safe_rate_threshold ≺ rate then safe else science
  target_mode c rate downlink = if c.nominal_to_safe_rate_threshold ≺ rate then safe else downlink
  target_mode c rate degraded = if c.nominal_to_safe_rate_threshold ≺ rate then safe else degraded
  target_mode c rate contingency = contingency

  module _ ⦃e : Eigen D⦄ where
    unfoldable pub evaluate_transitions : ModeManager D → Vector3 D → ModeManager D
    unfolding can_transition target_mode transition_to_mode
    evaluate_transitions m w =
        let target = target_mode m.config (e.norm w) m.current_mode in
        if not (can_transition m)
        then m
        else (if not (same_mode target m.current_mode) then transition_to_mode m target else m)

    unfoldable pub update : ModeManager D → Vector3 D → D → ModeManager D
    unfolding evaluate_transitions
    update m w dt =
        evaluate_transitions (record m { time_in_current_mode = m.time_in_current_mode ⊕ dt }) w

  -- Returns the `bool` of the method too.
  unfoldable pub command_mode : ModeManager D → MissionMode → ModeManager D × Bool
  unfolding transition_to_mode
  command_mode m new =
      if same_mode new m.current_mode then (m, true) else (transition_to_mode m new, true)

  unfoldable pub force_mode_change : ModeManager D → MissionMode → ModeManager D
  unfolding transition_to_mode
  force_mode_change m new = if same_mode new m.current_mode then m else transition_to_mode m new

  unfoldable pub reset : ModeManager D → ModeManager D
  unfolding transition_to_mode
  reset m = transition_to_mode m safe

  unfoldable pub set_mode_change_callback : ModeManager D → Bool → ModeManager D
  set_mode_change_callback m registered = record m { callback = registered }
