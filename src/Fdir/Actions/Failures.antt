-- ===== src/Fdir/Actions/Failures.antt =====
-- The response to the failure of one sensor of a redundancy group (src/fsw/fdir/FDIRManager.cpp,
-- `executeResponseActions`).
use Prim.Native.String.{String}
use text.Mathlib.Text.{◌==◌ as str_eq}
use text.Mathlib.TextPositions.{eq_refl}
use mathlib.Core.Option
use cubesat_fsw_gnc.Prelude.{◌≡◌, refl, true, false, some, arith}
use cubesat_fsw_gnc.Prelude.Dict.{lookup, insert}
use cubesat_fsw_gnc.Double.{Double}
use cubesat_fsw_gnc.Core.ModeManager.{
  ModeManager, MissionMode, safe, degraded as degraded_mode, force_mode_change, transition_to_mode,
}
use cubesat_fsw_gnc.Gnc.Interfaces.{Estimator}
use cubesat_fsw_gnc.Fdir.Health.{failed}
use cubesat_fsw_gnc.Fdir.Manager.{FdirManager, RedundancyGroup, is_critical_sensor}
use cubesat_fsw_gnc.Fdir.Actions.{
  Linked, fail_over, group_at, respond_critical, respond_failed, execute_response_actions,
}
use cubesat_fsw_gnc.Fdir.Actions.Groups.{fresh_pair}

pub fail_over-spent :
    (name : String) (g : RedundancyGroup)
    → g.backup_available ≡ false
    → (g' : RedundancyGroup) × (g'.backup_available ≡ false) × (fail_over name g ≡ (g', false))
unfolding fail_over
fail_over-spent name g e = (record g { backup_available = false }, refl, ground arith)

pub fail_over-primary :
    (p b : String)
    → fail_over p (fresh_pair p b)
      ≡ (record (fresh_pair p b) { active = b; backup_available = false }, true)
unfolding fail_over
fail_over-primary p b = ground (arith, eq_refl p)

pub fail_over-backup :
    (p b : String)
    → str_eq b p ≡ false
    → fail_over b (fresh_pair p b) ≡ (record (fresh_pair p b) { backup_available = false }, false)
unfolding fail_over
fail_over-backup p b h = ground (arith, eq_refl b)

module _ {D : Type 0} ⦃d : Double D⦄ where
  pub force_mode_change-mode :
      (m : ModeManager D) (new : MissionMode) → (force_mode_change m new).current_mode ≡ new
  unfolding force_mode_change transition_to_mode
  force_mode_change-mode m new = ground arith

module _ {D E : Type 0} ⦃d : Double D⦄ ⦃est : Estimator D E⦄ where
  -- The manager with another group.
  abbrev pub regroup : Linked D E → String → RedundancyGroup → FdirManager D
  regroup w group g = record (w.fdir) {
    redundancy_groups = insert group g w.fdir.redundancy_groups;
  }

  pub respond-kept :
      (w : Linked D E) (name group : String) (g g' : RedundancyGroup) (m : ModeManager D)
      → lookup name w.fdir.sensor_to_group ≡ some group
      → lookup group w.fdir.redundancy_groups ≡ some g
      → fail_over name g ≡ (g', false)
      → is_critical_sensor w.fdir name ≡ true
      → w.fdir.auto_mode_transition ≡ true
      → w.fdir.auto_mekf_reset ≡ true
      → w.mode_manager ≡ some m
      → execute_response_actions w name failed ≡ record {
        fdir = regroup w group g';
        mode_manager = some (force_mode_change m safe);
        mekf = Option.map est.reset w.mekf;
      }
  unfolding execute_response_actions respond_failed respond_critical group_at is_critical_sensor
  respond-kept w name group g g' m a b c k t r e =
      rw (respond_failed, a, group_at, b, c, respond_critical, k, t, r, e) refl

  pub respond-switched :
      (w : Linked D E) (name group : String) (g g' : RedundancyGroup) (m : ModeManager D)
      → lookup name w.fdir.sensor_to_group ≡ some group
      → lookup group w.fdir.redundancy_groups ≡ some g
      → fail_over name g ≡ (g', true)
      → w.fdir.auto_mode_transition ≡ true
      → w.mode_manager ≡ some m
      → execute_response_actions w name failed ≡ record {
        fdir = regroup w group g';
        mode_manager = some (force_mode_change m degraded_mode);
        mekf = w.mekf;
      }
  unfolding execute_response_actions respond_failed group_at
  respond-switched w name group g g' m a b c t e = rw (respond_failed, a, group_at, b, c, t, e) refl
