-- ===== src/Gnc/WheelDesaturation/Transitions.antt =====
-- src/fsw/gnc/control/WheelDesaturation.cpp as a state machine, and when it drives the torquers.
use mathlib.Core.Path.{subst}
use mathlib.Core.Bool.{true≢false}
use cubesat_fsw_gnc.Prelude.{
  true, false, List, ◌≡◌, refl, sym, ap, ◌∙◌, ◌⊎◌, inl, inr, arith, Bool-cases, if◌then◌else◌,
}
use cubesat_fsw_gnc.Double.{Double, lit, ◌⊕◌, ◌⊗◌, ◌≺◌, ◌≼◌}
use cubesat_fsw_gnc.Eigen.{Eigen, Vector3, vector_zero}
use cubesat_fsw_gnc.Gnc.WheelDesaturation.{
  DesaturationConfig, DesaturationState, idle, desaturating, cooldown, Wheel, WheelDesaturation,
  momentum_ratio, enter, update_state, update_state_machine, observe, dipole, update,
  compute_total_momentum, compute_max_momentum,
}

module _ {D : Type 0} ⦃d : Double D⦄ where
  -- The changes of state that a momentum ratio and a time in the state allow.
  pub data Transition (c : DesaturationConfig D) (ratio time : D)
      : DesaturationState → DesaturationState → Type 0 where
    overloaded :
        c.momentum_threshold_ratio ≺ ratio ≡ true → Transition c ratio time idle desaturating
    unloaded :
        ratio ≺ c.momentum_threshold_ratio ⊗ lit 7 1 ≡ true
        → Transition c ratio time desaturating cooldown
    timed_out : c.max_desat_duration ≺ time ≡ true → Transition c ratio time desaturating cooldown
    rested : c.min_time_between_desat ≺ time ≡ true → Transition c ratio time cooldown idle

  -- No change of state is allowed.
  abbrev pub Stays : DesaturationConfig D → D → D → DesaturationState → Type 0
  Stays c ratio time s = (s' : DesaturationState) → ¬ Transition c ratio time s s'

  -- The state machine keeps a controller where no change is allowed, or makes an allowed change and
  -- restarts the time.
  abbrev pub Moved : WheelDesaturation D → D → DesaturationState → WheelDesaturation D → Type 0
  Moved w ratio s new =
      ((new ≡ w) × Stays w.config ratio w.time_in_state s)
      ⊎ ((new ≡ record w { state = new.state; time_in_state = lit 0 0 })
          × Transition w.config ratio w.time_in_state s new.state)

  idle-Stays :
      (c : DesaturationConfig D) (ratio time : D)
      → c.momentum_threshold_ratio ≺ ratio ≡ false
      → Stays c ratio time idle
  idle-Stays c ratio time h idle k = elim k [ ]
  idle-Stays c ratio time h cooldown k = elim k [ ]
  idle-Stays c ratio time h desaturating (overloaded k) = true≢false (sym k ∙ h)

  desaturating-Stays :
      (c : DesaturationConfig D) (ratio time : D)
      → ratio ≺ c.momentum_threshold_ratio ⊗ lit 7 1 ≡ false
      → c.max_desat_duration ≺ time ≡ false
      → Stays c ratio time desaturating
  desaturating-Stays c ratio time h g idle k = elim k [ ]
  desaturating-Stays c ratio time h g desaturating k = elim k [ ]
  desaturating-Stays c ratio time h g cooldown (unloaded k) = true≢false (sym k ∙ h)
  desaturating-Stays c ratio time h g cooldown (timed_out k) = true≢false (sym k ∙ g)

  cooldown-Stays :
      (c : DesaturationConfig D) (ratio time : D)
      → c.min_time_between_desat ≺ time ≡ false
      → Stays c ratio time cooldown
  cooldown-Stays c ratio time h desaturating k = elim k [ ]
  cooldown-Stays c ratio time h cooldown k = elim k [ ]
  cooldown-Stays c ratio time h idle (rested k) = true≢false (sym k ∙ h)

  update_state-Moved :
      (w : WheelDesaturation D) (ratio : D) (s : DesaturationState)
      → Moved w ratio s (update_state w ratio s)
  unfolding update_state enter
  update_state-Moved w ratio idle = elim (Bool-cases (w.config.momentum_threshold_ratio ≺ ratio)) [
    | inl h ↦ rw h (inr (refl, overloaded h))
    | inr h ↦ rw h (inl (refl, idle-Stays w.config ratio w.time_in_state h))
  ]
  update_state-Moved w ratio desaturating =
      elim (Bool-cases (ratio ≺ w.config.momentum_threshold_ratio ⊗ lit 7 1)) [
        | inl h ↦ rw h (inr (refl, unloaded h))
        | inr h ↦ rw h elim (Bool-cases (w.config.max_desat_duration ≺ w.time_in_state)) [
          | inl k ↦ rw k (inr (refl, timed_out k))
          | inr k ↦ rw k (inl (refl, desaturating-Stays w.config ratio w.time_in_state h k))
        ]
      ]
  update_state-Moved w ratio cooldown =
      elim (Bool-cases (w.config.min_time_between_desat ≺ w.time_in_state)) [
        | inl h ↦ rw h (inr (refl, rested h))
        | inr h ↦ rw h (inl (refl, cooldown-Stays w.config ratio w.time_in_state h))
      ]

  config-update :
      (w : WheelDesaturation D) (ratio : D) (s : DesaturationState)
      → (update_state w ratio s).config ≡ w.config
  unfolding update_state
  config-update w ratio idle = ground arith
  config-update w ratio desaturating = ground arith
  config-update w ratio cooldown = ground arith

module _ {D : Type 0} ⦃d : Double D⦄ ⦃e : Eigen D⦄ where
  -- What a call of `update` does to a controller, by its fields.
  pub record IsUpdated (w : WheelDesaturation D) (wheels : List (Wheel D)) (dt : D)
      (new : WheelDesaturation D) : Type 0 where
    pub config_eq : new.config ≡ w.config
    pub total_eq : new.total_momentum ≡ e.norm (compute_total_momentum wheels)
    pub max_eq :
        new.max_momentum
        ≡ (if w.max_momentum ≼ lit 0 0 then compute_max_momentum wheels else w.max_momentum)
    pub moved :
        ((new.state ≡ w.state)
          × (new.time_in_state ≡ w.time_in_state ⊕ dt)
          × Stays w.config (momentum_ratio new) (w.time_in_state ⊕ dt) w.state)
        ⊎ ((new.time_in_state ≡ lit 0 0)
            × Transition w.config (momentum_ratio new) (w.time_in_state ⊕ dt) w.state new.state)

  Moved-IsUpdated :
      (w : WheelDesaturation D) (wheels : List (Wheel D)) (dt : D) (new : WheelDesaturation D)
      → Moved (observe w wheels dt) (momentum_ratio (observe w wheels dt)) w.state new
      → IsUpdated w wheels dt new
  unfolding observe momentum_ratio
  Moved-IsUpdated w wheels dt new (inl (same, stays)) =
      rw same
        record { config_eq = refl; total_eq = refl; max_eq = refl; moved = inl (refl, refl, stays) }
  Moved-IsUpdated w wheels dt new (inr (same, change)) = record {
    config_eq = ap (λ x. x.config) same;
    total_eq = ap (λ x. x.total_momentum) same;
    max_eq = ap (λ x. x.max_momentum) same;
    moved = inr (
      ap (λ x. x.time_in_state) same,
      subst (λ ratio. Transition w.config ratio (w.time_in_state ⊕ dt) w.state new.state)
          (ap momentum_ratio (sym same)) change,
    );
  }

  -- Every call of `update` keeps the configuration, records the total momentum of the wheels, takes
  -- the largest momentum from the wheels if it has none above zero, and adds the time step to the
  -- time in the state. If the momentum ratio and that time allow no change of state, the state
  -- stays; otherwise it makes a change that they allow, and the time in the state restarts at zero.
  pub update-IsUpdated :
      (w : WheelDesaturation D) (wheels : List (Wheel D)) (b : Vector3 D) (dt : D)
      → IsUpdated w wheels dt (update w wheels b dt).0
  unfolding update update_state_machine observe
  update-IsUpdated w wheels b dt =
      Moved-IsUpdated w wheels dt (update w wheels b dt).0
        (update_state-Moved (observe w wheels dt) _ w.state)

  dipole-is_active :
      (w : WheelDesaturation D) (h b : Vector3 D) (s : DesaturationState)
      → (dipole w h b s ≡ vector_zero)
        ⊎ ((s ≡ desaturating) × (w.config.min_b_field_magnitude ≺ e.norm b ≡ true))
  unfolding dipole
  dipole-is_active w h b idle = inl refl
  dipole-is_active w h b desaturating =
      elim (Bool-cases (w.config.min_b_field_magnitude ≺ e.norm b)) [
        | inl k ↦ inr (refl, k)
        | inr k ↦ rw k (inl refl)
      ]
  dipole-is_active w h b cooldown = inl refl

  dipole-config :
      (w : WheelDesaturation D) (h b : Vector3 D) (s : DesaturationState) (c : DesaturationConfig D)
      → w.config ≡ c
      → (dipole w h b s ≡ vector_zero)
        ⊎ ((s ≡ desaturating) × (c.min_b_field_magnitude ≺ e.norm b ≡ true))
  dipole-config w h b s c q = rw (← q) (dipole-is_active w h b s)

  -- The torquers are commanded only in the desaturating state and in a field above the least
  -- magnitude; the command is zero otherwise.
  pub update-is_active :
      (w : WheelDesaturation D) (wheels : List (Wheel D)) (b : Vector3 D) (dt : D)
      → let (new, cmd) = update w wheels b dt in
        (cmd ≡ vector_zero)
        ⊎ ((new.state ≡ desaturating) × (w.config.min_b_field_magnitude ≺ e.norm b ≡ true))
  unfolding update update_state_machine observe
  update-is_active w wheels b dt =
      let o = observe w wheels dt in
      let new = update_state_machine o in
      dipole-config new (compute_total_momentum wheels) b new.state w.config
        (config-update o (momentum_ratio o) w.state)
