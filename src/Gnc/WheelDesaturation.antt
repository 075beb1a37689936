-- ===== src/Gnc/WheelDesaturation.antt =====
-- src/fsw/gnc/control/WheelDesaturation.cpp: unloading of wheel momentum by the magnetorquers. A
-- wheel is the readings that its driver gives.
use cubesat_fsw_gnc.Prelude.{◌≡◌, List, [], ◌∷◌, if◌then◌else◌}
use cubesat_fsw_gnc.Double.{Double, lit, ◌⊕◌, ◌⊗◌, ◌⊘◌, ◌≺◌, ◌≼◌}
use cubesat_fsw_gnc.Eigen.{Eigen, Vector3, vector_zero}
pub mod Transitions
pub mod Runs
pub mod Tests

pub record DesaturationConfig (D : Type 0) : Type 0 where
  pub momentum_threshold_ratio : D
  pub desat_gain : D
  pub max_desat_duration : D
  pub min_time_between_desat : D
  pub min_b_field_magnitude : D

pub data DesaturationState : Type 0 where
  idle : DesaturationState
  desaturating : DesaturationState
  cooldown : DesaturationState

pub record Wheel (D : Type 0) : Type 0 where
  pub angular_momentum : D
  pub max_momentum : D

pub record WheelDesaturation (D : Type 0) : Type 0 where
  pub config : DesaturationConfig D
  pub state : DesaturationState
  pub max_momentum : D
  pub total_momentum : D
  pub time_in_state : D

module _ {D : Type 0} ⦃d : Double D⦄ where
  unfoldable pub default_desaturation : DesaturationConfig D
  default_desaturation = record {
    momentum_threshold_ratio = lit 8 1;
    desat_gain = lit 1 6;
    max_desat_duration = lit 300 0;
    min_time_between_desat = lit 60 0;
    min_b_field_magnitude = lit 1 6;
  }

  unfoldable pub init : DesaturationConfig D → WheelDesaturation D
  init config = record {
    config = config;
    state = idle;
    max_momentum = lit 0 0;
    total_momentum = lit 0 0;
    time_in_state = lit 0 0;
  }

  unfoldable pub reset : WheelDesaturation D → WheelDesaturation D
  reset w = record w { state = idle; time_in_state = lit 0 0 }

  -- The first three wheels stand for the axes of the body.
  unfoldable pub compute_total_momentum : List (Wheel D) → Vector3 D
  compute_total_momentum (a ∷ b ∷ c ∷ ws) = record {
    x = a.angular_momentum;
    y = b.angular_momentum;
    z = c.angular_momentum;
  }
  compute_total_momentum ws = vector_zero

  unfoldable pub momentum_ratio : WheelDesaturation D → D
  momentum_ratio w = if lit 0 0 ≺ w.max_momentum then w.total_momentum ⊘ w.max_momentum else lit 0 0

  -- A change of state restarts the time in it.
  unfoldable pub enter : WheelDesaturation D → DesaturationState → WheelDesaturation D
  enter w s = record w { state = s; time_in_state = lit 0 0 }

  -- The `switch` of `updateStateMachine`, by the state.
  unfoldable pub update_state : WheelDesaturation D → D → DesaturationState → WheelDesaturation D
  unfolding enter
  update_state w ratio idle =
      if w.config.momentum_threshold_ratio ≺ ratio then enter w desaturating else w
  update_state w ratio desaturating =
      if ratio ≺ w.config.momentum_threshold_ratio ⊗ lit 7 1
      then enter w cooldown
      else (if w.config.max_desat_duration ≺ w.time_in_state then enter w cooldown else w)
  update_state w ratio cooldown =
      if w.config.min_time_between_desat ≺ w.time_in_state then enter w idle else w

  unfoldable pub update_state_machine : WheelDesaturation D → WheelDesaturation D
  unfolding update_state momentum_ratio
  update_state_machine w = update_state w (momentum_ratio w) w.state

module _ {D : Type 0} ⦃d : Double D⦄ ⦃e : Eigen D⦄ where
  unfoldable pub compute_max_momentum : List (Wheel D) → D
  compute_max_momentum [] = lit 0 0
  compute_max_momentum (a ∷ b ∷ c ∷ ws) =
      e.norm record { x = a.max_momentum; y = b.max_momentum; z = c.max_momentum }
  compute_max_momentum ws = e.norm vector_zero

  unfoldable pub compute_b_cross_h : DesaturationConfig D → Vector3 D → Vector3 D → Vector3 D
  compute_b_cross_h c h b =
      let b_magnitude_sq = e.squared_norm b in
      if b_magnitude_sq ≺ c.min_b_field_magnitude ⊗ c.min_b_field_magnitude
      then vector_zero
      else e.scale (d.neg c.desat_gain) (e.divide (e.cross (e.cross h b) b) b_magnitude_sq)

  -- What `update` does before the state machine runs.
  unfoldable pub observe : WheelDesaturation D → List (Wheel D) → D → WheelDesaturation D
  unfolding compute_total_momentum compute_max_momentum
  observe w wheels dt = record w {
    time_in_state = w.time_in_state ⊕ dt;
    total_momentum = e.norm (compute_total_momentum wheels);
    max_momentum = if w.max_momentum ≼ lit 0 0 then compute_max_momentum wheels else w.max_momentum;
  }

  -- The dipole that the state asks for.
  unfoldable pub dipole :
      WheelDesaturation D → Vector3 D → Vector3 D → DesaturationState → Vector3 D
  unfolding compute_b_cross_h
  dipole w h b desaturating =
      if w.config.min_b_field_magnitude ≺ e.norm b
      then compute_b_cross_h w.config h b
      else vector_zero
  dipole w h b s = vector_zero

  -- The new state and the dipole command.
  unfoldable pub update :
      WheelDesaturation D → List (Wheel D) → Vector3 D → D → WheelDesaturation D × Vector3 D
  unfolding compute_total_momentum
  update w wheels b dt =
      let new = update_state_machine (observe w wheels dt) in
      (new, dipole new (compute_total_momentum wheels) b new.state)
