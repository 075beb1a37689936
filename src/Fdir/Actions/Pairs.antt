-- ===== src/Fdir/Actions/Pairs.antt =====
-- The responses to the failures of a redundant pair (src/fsw/fdir/FDIRManager.cpp,
-- `executeResponseActions`).
use cubesat_fsw_gnc.Fdir.Actions.Failures.{
  fail_over-backup, fail_over-primary, respond-kept, fail_over-spent, force_mode_change-mode,
  regroup, respond-switched,
}
use Prim.Native.String.{String}
use text.Mathlib.Text.{◌==◌ as str_eq}
use text.Mathlib.TextPositions.{eq_refl}
use mathlib.Core.Option
use cubesat_fsw_gnc.Prelude.{
  ℕ, zero, suc, ◌≡◌, refl, ◌∙◌, ap, ◌⊎◌, inl, inr, true, false, ◌&&◌, List, [], ◌∷◌, Option, none,
  some, arith, if◌then◌else◌, length, ◌==◌,
}
use cubesat_fsw_gnc.Prelude.Dict.{lookup, lookup-insert_self}
use cubesat_fsw_gnc.Double.{Double}
use cubesat_fsw_gnc.Core.ModeManager.{
  ModeManager, MissionMode, safe, degraded as degraded_mode, force_mode_change,
}
use cubesat_fsw_gnc.Gnc.Interfaces.{Estimator}
use cubesat_fsw_gnc.Fdir.Health.{failed}
use cubesat_fsw_gnc.Fdir.Manager.{FdirManager, RedundancyGroup, is_critical_sensor}
use cubesat_fsw_gnc.Fdir.Actions.{Linked, execute_response_actions}
use cubesat_fsw_gnc.Fdir.Actions.Groups.{fresh_pair}
use cubesat_fsw_gnc.Fdir.Actions.Modes.{mode_of}

-- The sensors of a pair in a manager with automatic actions: both are critical and belong to the
-- group.
pub record IsLinked {D : Type 0} (f : FdirManager D) (group p b : String) : Type 0 where
  pub primary_in : lookup p f.sensor_to_group ≡ some group
  pub backup_in : lookup b f.sensor_to_group ≡ some group
  pub primary_critical : is_critical_sensor f p ≡ true
  pub backup_critical : is_critical_sensor f b ≡ true
  pub transitions : f.auto_mode_transition ≡ true
  pub resets : f.auto_mekf_reset ≡ true

-- Every name is one of the two.
abbrev pub AllIn : String → String → List String → Type 0
AllIn p b [] = Unit
AllIn p b (name ∷ names) = ((name ≡ p) ⊎ (name ≡ b)) × AllIn p b names

-- The mode after the failures of a pair without a spare.
abbrev mode_after : MissionMode → List String → MissionMode
mode_after mode [] = mode
mode_after mode (name ∷ names) = safe

mode_after-safe : (names : List String) → mode_after safe names ≡ safe
mode_after-safe [] = refl
mode_after-safe (name ∷ names) = refl

mode_after-degraded :
    (names : List String)
    → mode_after degraded_mode names ≡ (if length names == 0 then degraded_mode else safe)
mode_after-degraded [] = refl
mode_after-degraded (name ∷ names) = ground arith

-- A function applied this many times.
abbrev pub times : {A : Type 0} → ℕ → (A → A) → A → A
times zero f a = a
times (suc n) f a = times n f (f a)

times-suc :
    {A : Type 0} (n : ℕ) (f : A → A) (o : Option A)
    → Option.map (times n f) (Option.map f o) ≡ Option.map (times (suc n) f) o
times-suc n f none = refl
times-suc n f (some a) = refl

times-zero : {A : Type 0} (f : A → A) (o : Option A) → o ≡ Option.map (times zero f) o
times-zero f none = refl
times-zero f (some a) = refl

module _ {D E : Type 0} ⦃d : Double D⦄ ⦃est : Estimator D E⦄ where
  -- The failures of sensors that the monitors report, in order.
  unfoldable pub respond_all : Linked D E → List String → Linked D E
  unfolding execute_response_actions
  respond_all w [] = w
  respond_all w (name ∷ names) = respond_all (execute_response_actions w name failed) names

  regroup-IsLinked :
      (w : Linked D E) (group p b other : String) (g : RedundancyGroup)
      → IsLinked w.fdir group p b
      → IsLinked (regroup w other g) group p b
  unfolding is_critical_sensor
  regroup-IsLinked w group p b other g h = record {
    primary_in = h.primary_in;
    backup_in = h.backup_in;
    primary_critical = h.primary_critical;
    backup_critical = h.backup_critical;
    transitions = h.transitions;
    resets = h.resets;
  }

  -- What is left of a failure that no spare takes over.
  abbrev after : Linked D E → String → RedundancyGroup → ModeManager D → MissionMode → Linked D E
  after w group g m mode = record w {
    fdir = regroup w group g;
    mode_manager = some (force_mode_change m mode);
  }

  abbrev hit : Linked D E → String → RedundancyGroup → ModeManager D → Linked D E
  hit w group g m = record (after w group g m safe) { mekf = Option.map est.reset w.mekf }

  respond-spent :
      (w : Linked D E) (name group p b : String) (g : RedundancyGroup) (m : ModeManager D)
      → IsLinked w.fdir group p b
      → lookup group w.fdir.redundancy_groups ≡ some g
      → g.backup_available ≡ false
      → w.mode_manager ≡ some m
      → (name ≡ p) ⊎ (name ≡ b)
      → (g' : RedundancyGroup) × (g'.backup_available ≡ false)
        × (execute_response_actions w name failed ≡ hit w group g' m)
  respond-spent w name group p b g m h f spent e (inl same) =
      let (g', s, over) = fail_over-spent name g spent in
      (
        g',
        s,
        respond-kept w name group g g' m (rw same h.primary_in) f over (rw same h.primary_critical)
            h.transitions h.resets e,
      )
  respond-spent w name group p b g m h f spent e (inr same) =
      let (g', s, over) = fail_over-spent name g spent in
      (
        g',
        s,
        respond-kept w name group g g' m (rw same h.backup_in) f over (rw same h.backup_critical)
            h.transitions h.resets e,
      )

  respond_all-spent :
      (names : List String) (w : Linked D E) (group p b : String) (g : RedundancyGroup)
      (m : ModeManager D)
      → IsLinked w.fdir group p b
      → lookup group w.fdir.redundancy_groups ≡ some g
      → g.backup_available ≡ false
      → w.mode_manager ≡ some m
      → AllIn p b names
      → (mode_of (respond_all w names) ≡ mode_after m.current_mode names)
        × ((respond_all w names).mekf ≡ Option.map (times (length names) est.reset) w.mekf)
  unfolding respond_all
  respond_all-spent [] w group p b g m h f spent e known = (rw e refl, times-zero est.reset w.mekf)
  respond_all-spent (name ∷ names) w group p b g m h f spent e (known, rest) =
      let (g', s, step) = respond-spent w name group p b g m h f spent e known in
      let (mode, mekf) =
        respond_all-spent names (hit w group g' m) group p b g' (force_mode_change m safe)
          (regroup-IsLinked w group p b group g' h)
          (lookup-insert_self group g' w.fdir.redundancy_groups) s refl rest in
      (
        ap (λ x. mode_of (respond_all x names)) step
            ∙ mode
            ∙ ap (λ x. mode_after x names) (force_mode_change-mode m safe)
            ∙ mode_after-safe names,
        ap (λ x. (respond_all x names).mekf) step
            ∙ mekf
            ∙ times-suc (length names) est.reset w.mekf,
      )

  -- Take a fresh redundant pair of two critical sensors of different names, with a mode manager and
  -- with automatic transitions and resets on. After any failures of the two, one or more in any
  -- order, the mode is DEGRADED if the primary failed once and nothing else did, and SAFE
  -- otherwise; and the filter was reset once for each failure, but for a first failure that is the
  -- primary's.
  pub respond_all-pair :
      (w : Linked D E) (group p b : String) (m : ModeManager D) (name : String)
      (names : List String)
      → IsLinked w.fdir group p b
      → lookup group w.fdir.redundancy_groups ≡ some (fresh_pair p b)
      → str_eq b p ≡ false
      → w.mode_manager ≡ some m
      → AllIn p b (name ∷ names)
      → let w' = respond_all w (name ∷ names) in
        (mode_of w' ≡ (if str_eq name p && (length names == 0) then degraded_mode else safe))
        × (w'.mekf
            ≡ Option.map
                (times (if str_eq name p then length names else suc (length names)) est.reset)
                w.mekf)
  unfolding respond_all
  respond_all-pair w group p b m name names h f apart e (inl first, rest) =
      let g = record (fresh_pair p b) { active = b; backup_available = false } in
      let step =
        respond-switched w p group (fresh_pair p b) g m h.primary_in f (fail_over-primary p b)
          h.transitions e in
      let (mode, mekf) =
        respond_all-spent names (after w group g m degraded_mode) group p b g
          (force_mode_change m degraded_mode) (regroup-IsLinked w group p b group g h)
          (lookup-insert_self group g w.fdir.redundancy_groups) refl refl rest in
      rw (first, eq_refl p)
        (
          ap (λ x. mode_of (respond_all x names)) step
              ∙ mode
              ∙ ap (λ x. mode_after x names) (force_mode_change-mode m degraded_mode)
              ∙ mode_after-degraded names,
          ap (λ x. (respond_all x names).mekf) step ∙ mekf,
        )
  respond_all-pair w group p b m name names h f apart e (inr second, rest) =
      let g = record (fresh_pair p b) { backup_available = false } in
      let step =
        respond-kept w b group (fresh_pair p b) g m h.backup_in f (fail_over-backup p b apart)
          h.backup_critical h.transitions h.resets e in
      let (mode, mekf) =
        respond_all-spent names (hit w group g m) group p b g (force_mode_change m safe)
          (regroup-IsLinked w group p b group g h)
          (lookup-insert_self group g w.fdir.redundancy_groups) refl refl rest in
      rw (second, apart)
        (
          ap (λ x. mode_of (respond_all x names)) step
              ∙ mode
              ∙ ap (λ x. mode_after x names) (force_mode_change-mode m safe)
              ∙ mode_after-safe names,
          ap (λ x. (respond_all x names).mekf) step
              ∙ mekf
              ∙ times-suc (length names) est.reset w.mekf,
        )
