-- ===== src/Sim/ReactionWheel/Faults.antt =====
-- src/sim/models/SimRW.cpp: what commands and steps can do to a wheel.
use cubesat_fsw_gnc.Prelude.{◌≡◌, refl, ◌∙◌, true, List, [], ◌∷◌, arith}
use cubesat_fsw_gnc.Double.{Double, IsOrdered, lit, ◌≼◌}
use cubesat_fsw_gnc.Sim.Torquer.{saturate}
use cubesat_fsw_gnc.Sim.ReactionWheel.{
  SimWheel, WheelConfig, stuck, inject_fault_stuck, init, set_torque_command, stop, step,
}

-- What the simulation does to a wheel in a cycle.
pub data Use (D : Type 0) : Type 0 where
  command : D → Use D
  halt : Use D
  advance : D → Use D

module _ {D : Type 0} ⦃d : Double D⦄ where
  unfoldable pub apply_use : SimWheel D → Use D → SimWheel D
  unfolding set_torque_command
  apply_use w (command torque) = set_torque_command w torque
  apply_use w halt = stop w
  apply_use w (advance dt) = (step w dt).0

  unfoldable pub apply_all : SimWheel D → List (Use D) → SimWheel D
  apply_all w [] = w
  apply_all w (u ∷ us) = apply_all (apply_use w u) us

  -- The command is inside the limits.
  abbrev pub IsLimited : SimWheel D → Type 0
  IsLimited w =
      (d.neg w.config.max_torque ≼ w.commanded_torque ≡ true)
      × (w.commanded_torque ≼ w.config.max_torque ≡ true)

  module _ ⦃o : IsOrdered D⦄ where
    saturate-bounds :
        (limit a : D)
        → d.neg limit ≼ limit ≡ true
        → (d.neg limit ≼ saturate limit a ≡ true) × (saturate limit a ≼ limit ≡ true)
    unfolding saturate
    saturate-bounds limit a h = ground (
      arith,
      h,
      o.le_refl_of_le (d.neg limit) limit h,
      o.le_of_lt a limit,
      o.le_of_lt (d.neg limit) a,
      o.le_of_lt (d.neg limit) limit,
    )

    -- The limits are in order around zero.
    record HasLimits (config : WheelConfig D) : Type 0 where
      spread : d.neg config.max_torque ≼ config.max_torque ≡ true
      below : d.neg config.max_torque ≼ lit 0 0 ≡ true
      above : lit 0 0 ≼ config.max_torque ≡ true

    config-apply_use : (w : SimWheel D) (u : Use D) → (apply_use w u).config ≡ w.config
    unfolding apply_use step stop
    config-apply_use w (command torque) = refl
    config-apply_use w halt = refl
    config-apply_use w (advance dt) = ground arith

    apply_use-IsLimited :
        (w : SimWheel D) (u : Use D) → HasLimits w.config → IsLimited w → IsLimited (apply_use w u)
    unfolding apply_use step stop
    apply_use-IsLimited w (command torque) l h = saturate-bounds w.config.max_torque torque l.spread
    apply_use-IsLimited w halt l h = (l.below, l.above)
    apply_use-IsLimited w (advance dt) l h = ground (arith, h.0, h.1, l.below, l.above)

    apply_all-IsLimited :
        (w : SimWheel D) (us : List (Use D))
        → HasLimits w.config
        → IsLimited w
        → IsLimited (apply_all w us)
    unfolding apply_all
    apply_all-IsLimited w [] l h = h
    apply_all-IsLimited w (u ∷ us) l h =
        apply_all-IsLimited (apply_use w u) us (rw (config-apply_use w u) l)
          (apply_use-IsLimited w u l h)

    -- Whatever commands, stops and steps a new simulated wheel sees, its commanded torque is at
    -- most the maximal torque in either direction, also after a command of NaN, given the
    -- comparisons of IEEE 754 and limits in order around zero.
    pub apply_all-init :
        (config : WheelConfig D) (us : List (Use D))
        → d.neg config.max_torque ≼ config.max_torque ≡ true
        → d.neg config.max_torque ≼ lit 0 0 ≡ true
        → lit 0 0 ≼ config.max_torque ≡ true
        → IsLimited (apply_all (init config) us)
    unfolding init
    apply_all-init config us p q r =
        apply_all-IsLimited (init config) us (record { spread = p; below = q; above = r }) (q, r)

  -- The wheel is stuck at this speed.
  record IsStuck (speed : D) (w : SimWheel D) : Type 0 where
    fault_eq : w.fault_type ≡ stuck
    stuck_eq : w.stuck_speed ≡ speed
    speed_eq : w.current_speed ≡ speed

  step-stuck :
      (w : SimWheel D) (dt : D)
      → w.fault_type ≡ stuck
      → let (w', torque) = step w dt in
        (w'.current_speed ≡ w.stuck_speed)
        × (w'.fault_type ≡ stuck)
        × (w'.stuck_speed ≡ w.stuck_speed)
        × (torque ≡ lit 0 0)
  unfolding step
  step-stuck w dt e = ground (arith, e)

  apply_use-IsStuck :
      (speed : D) (w : SimWheel D) (u : Use D) → IsStuck speed w → IsStuck speed (apply_use w u)
  unfolding apply_use stop
  apply_use-IsStuck speed w (command torque) h = record {
    fault_eq = h.fault_eq;
    stuck_eq = h.stuck_eq;
    speed_eq = h.speed_eq;
  }
  apply_use-IsStuck speed w halt h = record {
    fault_eq = h.fault_eq;
    stuck_eq = h.stuck_eq;
    speed_eq = h.speed_eq;
  }
  apply_use-IsStuck speed w (advance dt) h =
      let (a, b, c, t) = step-stuck w dt h.fault_eq in
      record { fault_eq = b; stuck_eq = c ∙ h.stuck_eq; speed_eq = a ∙ h.stuck_eq }

  apply_all-IsStuck :
      (speed : D) (w : SimWheel D) (us : List (Use D))
      → IsStuck speed w
      → IsStuck speed (apply_all w us)
  unfolding apply_all
  apply_all-IsStuck speed w [] h = h
  apply_all-IsStuck speed w (u ∷ us) h =
      apply_all-IsStuck speed (apply_use w u) us (apply_use-IsStuck speed w u h)

  pub apply_all-inject_fault_stuck :
      (w : SimWheel D) (speed dt : D) (us : List (Use D))
      → let w' = apply_all (inject_fault_stuck w speed) us in
        (w'.current_speed ≡ speed)
        × ((step w' dt).0.current_speed ≡ speed)
        × ((step w' dt).1 ≡ lit 0 0)
  unfolding inject_fault_stuck
  apply_all-inject_fault_stuck w speed dt us =
      let h =
        apply_all-IsStuck speed (inject_fault_stuck w speed) us
          (record { fault_eq = refl; stuck_eq = refl; speed_eq = refl }) in
      let w' = apply_all (inject_fault_stuck w speed) us in
      let (a, b, c, t) = step-stuck w' dt h.fault_eq in (h.speed_eq, a ∙ h.stuck_eq, t)
