-- ===== src/Core/ModeManager/Laws.antt =====
-- What the mode manager of src/fsw/core/ModeManager.cpp guarantees about mode changes.
use cubesat_fsw_gnc.Prelude.{
  ◌≡◌, refl, ◌⊎◌, inl, inr, ◌≢◌, true, false, List, [], ◌∷◌, ◌++◌, arith, if◌then◌else◌, Bool-cases,
}
use cubesat_fsw_gnc.Double.{Double, lit, ◌⊕◌, ◌≺◌, ◌≼◌}
use cubesat_fsw_gnc.Eigen.{Eigen, Vector3}
use cubesat_fsw_gnc.Core.ModeManager.{
  MissionMode, safe, nominal, contingency, ModeManager, same_mode, ModeTransitionConfig,
  target_mode, update, command_mode, force_mode_change,
}

pub same_mode_self : (a : MissionMode) → same_mode a a ≡ true
same_mode_self safe = refl
same_mode_self _ = refl

module _ {D : Type 0} ⦃d : Double D⦄ ⦃e : Eigen D⦄ where
  -- The automatic transitions: from SAFE at a low rate, and back from an operating mode at a high one.
  pub data Automatic (c : ModeTransitionConfig D) (rate : D)
      : MissionMode → MissionMode → Type 0 where
    detumbled : rate ≺ c.safe_to_nominal_rate_threshold ≡ true → Automatic c rate safe nominal
    tumbling :
        {m : MissionMode}
        → c.nominal_to_safe_rate_threshold ≺ rate ≡ true
        → m ≢ safe
        → m ≢ contingency
        → Automatic c rate m safe

  -- What the `switch` chooses: the same mode, or an automatic transition.
  target_mode-Automatic :
      (c : ModeTransitionConfig D) (rate : D) (m : MissionMode)
      → (same_mode (target_mode c rate m) m ≡ true)
        ⊎ Automatic c rate m (target_mode c rate m) × (same_mode (target_mode c rate m) m ≡ false)
  unfolding target_mode
  target_mode-Automatic c rate safe = elim (Bool-cases (rate ≺ c.safe_to_nominal_rate_threshold)) [
    | inl h ↦ rw h (inr (detumbled h, refl))
    | inr h ↦ rw h (inl refl)
  ]
  target_mode-Automatic c rate contingency = inl refl
  target_mode-Automatic c rate m = elim (Bool-cases (c.nominal_to_safe_rate_threshold ≺ rate)) [
    | inl h ↦ rw h (inr (tumbling h (λ q. cc) (λ q. cc), refl))
    | inr h ↦ rw h (inl refl)
  ]

  abbrev waited : ModeManager D → D → ModeManager D
  waited m dt = record m { time_in_current_mode = m.time_in_current_mode ⊕ dt }

  -- What one call of `update` has done to a manager.
  abbrev pub Updated : ModeManager D → Vector3 D → D → ModeManager D → Type 0
  Updated m w dt n =
      (n ≡ waited m dt)
      ⊎ (Automatic m.config (e.norm w) m.current_mode n.current_mode
          × (m.min_time_in_mode ≼ (m.time_in_current_mode ⊕ dt) ≡ true)
          × (n.previous_mode ≡ m.current_mode)
          × (n.time_in_current_mode ≡ lit 0 0)
          × (n.config ≡ m.config)
          × (n.callback ≡ m.callback)
          × (n.calls
              ≡ (if m.callback then m.calls ++ (m.current_mode, n.current_mode) ∷ [] else m.calls)))

  -- Every call of `update` either only adds the time step to the time in the mode, or makes an
  -- automatic transition that its rate allows (SAFE to NOMINAL at a low rate, any operating mode to
  -- SAFE at a high one), after the minimum time in the mode; then it records the old mode, restarts
  -- the time, keeps the configuration, and calls a registered callback once.
  pub update-Updated : (m : ModeManager D) (w : Vector3 D) (dt : D) → Updated m w dt (update m w dt)
  unfolding update
  update-Updated m w dt = elim (Bool-cases (m.min_time_in_mode ≼ (m.time_in_current_mode ⊕ dt))) [
    | inr h ↦ inl (rw h)
    | inl h ↦ elim (target_mode-Automatic m.config (e.norm w) m.current_mode) [
      | inl same ↦ inl (rw (h, same))
      | inr (auto, other) ↦ rw (h, other) (inr (auto, refl, refl, refl, refl, refl, refl))
    ]
  ]

  -- The control cycles of a mission phase: an angular velocity and a time step each.
  pub run : ModeManager D → List (Vector3 D × D) → ModeManager D
  run m [] = m
  run m ((w, dt) ∷ us) = run (update m w dt) us

  -- The time in the mode stays below the minimum at each cycle.
  abbrev pub Waits : D → D → List (Vector3 D × D) → Type 0
  Waits minimum t [] = Unit
  Waits minimum t ((w, dt) ∷ us) = (minimum ≼ (t ⊕ dt) ≡ false) × Waits minimum (t ⊕ dt) us

  update-early :
      (m : ModeManager D) (w : Vector3 D) (dt : D)
      → m.min_time_in_mode ≼ (m.time_in_current_mode ⊕ dt) ≡ false
      → update m w dt ≡ waited m dt
  unfolding update
  update-early m w dt h = rw h

  -- Until the time in the mode reaches the minimum, no run of control cycles changes the mode or
  -- calls the callback, whatever the rates are.
  pub run-Waits :
      (us : List (Vector3 D × D)) (m : ModeManager D)
      → Waits m.min_time_in_mode m.time_in_current_mode us
      → ((run m us).current_mode ≡ m.current_mode) × ((run m us).calls ≡ m.calls)
  unfolding run
  run-Waits [] m h = (refl, refl)
  run-Waits ((w, dt) ∷ us) m (h, hs) =
      rw (update-early m w dt h, run) (run-Waits us (waited m dt) hs)

  -- A rate that is less than neither threshold nor greater, as a NaN is.
  abbrev pub IsBlind : ModeTransitionConfig D → Vector3 D → Type 0
  IsBlind c w =
      (e.norm w ≺ c.safe_to_nominal_rate_threshold ≡ false)
      × (c.nominal_to_safe_rate_threshold ≺ e.norm w ≡ false)

  abbrev pub AllBlind : ModeTransitionConfig D → List (Vector3 D × D) → Type 0
  AllBlind c [] = Unit
  AllBlind c ((w, dt) ∷ us) = IsBlind c w × AllBlind c us

  not-Automatic-IsBlind :
      {c : ModeTransitionConfig D} {a b : MissionMode} (w : Vector3 D)
      → IsBlind c w
      → ¬ Automatic c (e.norm w) a b
  not-Automatic-IsBlind w (l, h) (detumbled p) = cc
  not-Automatic-IsBlind w (l, h) (tumbling p _ _) = cc

  -- A run of cycles whose rates compare with neither threshold, such as NaN, keeps the mode for
  -- ever: there is no fallback to SAFE on an invalid rate.
  pub run_blind :
      (us : List (Vector3 D × D)) (m : ModeManager D)
      → AllBlind m.config us
      → (run m us).current_mode ≡ m.current_mode
  unfolding run
  run_blind [] m h = refl
  run_blind ((w, dt) ∷ us) m (h, hs) = elim (update-Updated m w dt) [
    | inl e ↦ rw (e, run) (run_blind us (waited m dt) hs)
    | inr u ↦ absurd (not-Automatic-IsBlind w h u.0)
  ]

  not-Automatic-contingency :
      {c : ModeTransitionConfig D} {rate : D} {a b : MissionMode}
      → Automatic c rate a b
      → a ≢ contingency
  not-Automatic-contingency (detumbled p) q = cc
  not-Automatic-contingency (tumbling p s n) q = n q

  -- No run of control cycles leaves CONTINGENCY.
  pub run_contingency :
      (us : List (Vector3 D × D)) (m : ModeManager D)
      → m.current_mode ≡ contingency
      → (run m us).current_mode ≡ contingency
  unfolding run
  run_contingency [] m h = h
  run_contingency ((w, dt) ∷ us) m h = elim (update-Updated m w dt) [
    | inl e ↦ rw (e, run) (run_contingency us (waited m dt) h)
    | inr u ↦ absurd (not-Automatic-contingency u.0 h)
  ]

module _ {D : Type 0} ⦃d : Double D⦄ where
  -- A manual command and a forced change do the same to the manager: they reach the wanted mode at
  -- any time, with no minimum time in the mode, and the command reports success.
  pub command_mode-force_mode_change :
      (m : ModeManager D) (new : MissionMode)
      → (command_mode m new ≡ (force_mode_change m new, true))
        × (same_mode (force_mode_change m new).current_mode new ≡ true)
  unfolding command_mode force_mode_change
  command_mode-force_mode_change m new = elim (Bool-cases (same_mode new m.current_mode)) [
    | inl h ↦ rw h (refl, ground (arith, h))
    | inr h ↦ rw h (refl, same_mode_self new)
  ]
