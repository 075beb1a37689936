-- ===== src/Gnc/WheelDesaturation/Runs.antt =====
-- src/fsw/gnc/control/WheelDesaturation.cpp over runs of cycles: how a desaturation ends, and the rest
-- after it.
use cubesat_fsw_gnc.Prelude.{
  true, false, List, [], ◌∷◌, ◌≡◌, refl, ◌⊎◌, inl, inr, arith, Bool-cases,
}
use cubesat_fsw_gnc.Double.{Double, lit, ◌⊕◌, ◌⊗◌, ◌≺◌}
use cubesat_fsw_gnc.Eigen.{Eigen, Vector3, vector_zero}
use cubesat_fsw_gnc.Gnc.WheelDesaturation.{
  desaturating, cooldown, Wheel, WheelDesaturation, momentum_ratio, enter, update_state,
  update_state_machine, observe, dipole, update,
}

module _ {D : Type 0} ⦃d : Double D⦄ where
  timed_out-update :
      (w : WheelDesaturation D)
      → w.state ≡ desaturating
      → w.config.max_desat_duration ≺ w.time_in_state ≡ true
      → update_state_machine w ≡ enter w cooldown
  unfolding update_state_machine update_state
  timed_out-update w s h = rw (s, h) ground arith

  rests-update :
      (w : WheelDesaturation D)
      → w.state ≡ cooldown
      → w.config.min_time_between_desat ≺ w.time_in_state ≡ false
      → update_state_machine w ≡ w
  unfolding update_state_machine update_state
  rests-update w s h = rw (s, h) refl

module _ {D : Type 0} ⦃d : Double D⦄ ⦃e : Eigen D⦄ where
  update-timed_out :
      (w : WheelDesaturation D) (wheels : List (Wheel D)) (b : Vector3 D) (dt : D)
      → w.state ≡ desaturating
      → w.config.max_desat_duration ≺ (w.time_in_state ⊕ dt) ≡ true
      → let (new, cmd) = update w wheels b dt in
        (new.state ≡ cooldown) × (new.time_in_state ≡ lit 0 0) × (cmd ≡ vector_zero)
  unfolding update observe enter dipole
  update-timed_out w wheels b dt s h =
      rw (timed_out-update (observe w wheels dt) s h) (refl, refl, refl)

  -- Somewhere in a run of cycles the desaturation ends in a cooldown of no time and with no command,
  -- and it goes on until then.
  pub data Unloads : WheelDesaturation D → List (List (Wheel D) × Vector3 D × D) → Type 0 where
    now :
        {w : WheelDesaturation D} {wheels : List (Wheel D)} {b : Vector3 D} {dt : D}
        {us : List (List (Wheel D) × Vector3 D × D)}
        → (update w wheels b dt).0.state ≡ cooldown
        → (update w wheels b dt).0.time_in_state ≡ lit 0 0
        → (update w wheels b dt).1 ≡ vector_zero
        → Unloads w ((wheels, b, dt) ∷ us)
    later :
        {w : WheelDesaturation D} {wheels : List (Wheel D)} {b : Vector3 D} {dt : D}
        {us : List (List (Wheel D) × Vector3 D × D)}
        → (update w wheels b dt).0.state ≡ desaturating
        → Unloads (update w wheels b dt).0 us
        → Unloads w ((wheels, b, dt) ∷ us)

  -- The time in the state after a cycle and some more, if the state stays.
  abbrev pub time_after : D → D → List (List (Wheel D) × Vector3 D × D) → D
  time_after time dt [] = time ⊕ dt
  time_after time dt ((wheels, b, dt') ∷ us) = time_after (time ⊕ dt) dt' us

  update-desaturating :
      (w : WheelDesaturation D) (wheels : List (Wheel D)) (b : Vector3 D) (dt : D)
      → w.state ≡ desaturating
      → let (new, cmd) = update w wheels b dt in
        ((new.state ≡ cooldown) × (new.time_in_state ≡ lit 0 0) × (cmd ≡ vector_zero))
        ⊎ ((new.state ≡ desaturating)
            × (new.time_in_state ≡ w.time_in_state ⊕ dt)
            × (new.config ≡ w.config))
  unfolding update update_state_machine update_state observe enter dipole
  update-desaturating w wheels b dt s =
      let o = observe w wheels dt in
      rw s elim (Bool-cases (momentum_ratio o ≺ w.config.momentum_threshold_ratio ⊗ lit 7 1)) [
        | inl h ↦ rw h (inl (refl, refl, refl))
        | inr h ↦ rw h elim (Bool-cases (w.config.max_desat_duration ≺ (w.time_in_state ⊕ dt))) [
          | inl k ↦ rw k (inl (refl, refl, refl))
          | inr k ↦ rw k (inr (refl, refl, refl))
        ]
      ]

  -- A desaturation ends in every run of one cycle or more whose time steps, added to the time in
  -- the state, come to more than the maximum, whatever the momentum and the field are: it goes on
  -- from cycle to cycle until one of them ends in a cooldown with no time in it, and that cycle
  -- commands nothing.
  pub run-Unloads :
      (us : List (List (Wheel D) × Vector3 D × D)) (w : WheelDesaturation D)
      (wheels : List (Wheel D)) (b : Vector3 D) (dt : D)
      → w.state ≡ desaturating
      → w.config.max_desat_duration ≺ time_after w.time_in_state dt us ≡ true
      → Unloads w ((wheels, b, dt) ∷ us)
  run-Unloads [] w wheels b dt s late =
      let (state, time, cmd) = update-timed_out w wheels b dt s late in now state time cmd
  run-Unloads ((wheels', b', dt') ∷ us) w wheels b dt s late =
      elim (update-desaturating w wheels b dt s) [
        | inl ended ↦ now ended.0 ended.1 ended.2
        | inr lasts ↦ later lasts.0 (
            run-Unloads us (update w wheels b dt).0 wheels' b' dt' lasts.0
              (rw (lasts.1, lasts.2) late))
      ]

  -- Every cycle's time in the state is short of the rest.
  unfoldable pub Rests : WheelDesaturation D → List (List (Wheel D) × Vector3 D × D) → Type 0
  Rests w [] = Unit
  Rests w ((wheels, b, dt) ∷ us) =
      (w.config.min_time_between_desat ≺ (w.time_in_state ⊕ dt) ≡ false)
      × Rests (observe w wheels dt) us

  -- All the commands of a run of cycles.
  unfoldable pub commands :
      WheelDesaturation D → List (List (Wheel D) × Vector3 D × D) → List (Vector3 D)
  commands w [] = []
  commands w ((wheels, b, dt) ∷ us) = let (new, cmd) = update w wheels b dt in cmd ∷ commands new us

  unfoldable pub AllZero : List (Vector3 D) → Type 0
  AllZero [] = Unit
  AllZero (v ∷ vs) = (v ≡ vector_zero) × AllZero vs

  update-rests :
      (w : WheelDesaturation D) (wheels : List (Wheel D)) (b : Vector3 D) (dt : D)
      → w.state ≡ cooldown
      → w.config.min_time_between_desat ≺ (w.time_in_state ⊕ dt) ≡ false
      → update w wheels b dt ≡ (observe w wheels dt, vector_zero)
  unfolding update observe dipole
  update-rests w wheels b dt s h = rw (rests-update (observe w wheels dt) s h, s) refl

  -- In cooldown, and as long as no cycle's time in the state exceeds the rest, every command of a
  -- run of cycles is zero.
  pub commands-Rests :
      (us : List (List (Wheel D) × Vector3 D × D)) (w : WheelDesaturation D)
      → w.state ≡ cooldown
      → Rests w us
      → AllZero (commands w us)
  unfolding commands Rests AllZero observe
  commands-Rests [] w s r = tt
  commands-Rests ((wheels, b, dt) ∷ us) w s (h, r) =
      rw (update-rests w wheels b dt s h) (refl, commands-Rests us (observe w wheels dt) s r)
