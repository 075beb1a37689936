-- ===== src/Fdir/Actions/Groups.antt =====
-- Redundancy groups under the recovery actions of src/fsw/fdir/FDIRManager.cpp.
use Prim.Native.String.{String}
use text.Mathlib.Text.{◌==◌ as str_eq}
use text.Mathlib.TextPositions.{eq_refl}
use cubesat_fsw_gnc.Prelude.{
  ◌∙◌, ap, ◌≡◌, refl, inl, inr, Bool, true, false, List, [], ◌∷◌, arith, if◌then◌else◌, Bool-cases,
}
use cubesat_fsw_gnc.Fdir.Manager.{RedundancyGroup}
use cubesat_fsw_gnc.Fdir.Actions.{fail_over}

-- The failures of sensors that reach one group, in order.
pub fail_all : List String → RedundancyGroup → RedundancyGroup
fail_all [] g = g
fail_all (name ∷ names) g = fail_all names (fail_over name g).0

-- A pair as `registerRedundantPair` makes it.
abbrev pub fresh_pair : String → String → RedundancyGroup
fresh_pair p b = record { primary = p; backup = b; active = p; backup_available = true }

-- Does the primary fail before the backup does?
pub primary_first : String → String → List String → Bool
primary_first p b [] = false
primary_first p b (name ∷ names) =
    if str_eq name p then true else (if str_eq name b then false else primary_first p b names)

fail_over_spent :
    (name : String) (g : RedundancyGroup)
    → g.backup_available ≡ false
    → ((fail_over name g).0.active ≡ g.active) × ((fail_over name g).0.backup_available ≡ false)
unfolding fail_over
fail_over_spent name g e = ground arith

-- Once a group has no backup left, no failure moves its active sensor.
fail_all_spent :
    (names : List String) (g : RedundancyGroup)
    → g.backup_available ≡ false
    → (fail_all names g).active ≡ g.active
unfolding fail_all
fail_all_spent [] g e = refl
fail_all_spent (name ∷ names) g e =
    let (same, spent) = fail_over_spent name g e in
    fail_all_spent names (fail_over name g).0 spent ∙ same

fail_over-fresh_pair :
    (name p b : String)
    → (fail_over name (fresh_pair p b)).0 ≡ (
        if str_eq name p
        then record (fresh_pair p b) { active = b; backup_available = false }
        else (if str_eq name b
            then record (fresh_pair p b) { backup_available = false }
            else fresh_pair p b))
unfolding fail_over
fail_over-fresh_pair name p b = ground (arith, eq_refl p)

-- Whatever sensors fail in whatever order, a redundant pair ends on its backup exactly if the
-- primary failed before the backup did, and on its primary otherwise; so it switches once at most.
pub fail_all-active :
    (p b : String) (names : List String)
    → (fail_all names (fresh_pair p b)).active ≡ (if primary_first p b names then b else p)
unfolding fail_all primary_first
fail_all-active p b [] = refl
fail_all-active p b (name ∷ names) =
    ap (λ g. (fail_all names g).active) (fail_over-fresh_pair name p b)
    ∙ elim (Bool-cases (str_eq name p)) [
      | inl e ↦ rw e (
          fail_all_spent names (record (fresh_pair p b) { active = b; backup_available = false })
            refl)
      | inr e ↦ elim (Bool-cases (str_eq name b)) [
        | inl f ↦
            rw (e, f)
              (fail_all_spent names (record (fresh_pair p b) { backup_available = false }) refl)
        | inr f ↦ rw (e, f) (fail_all-active p b names)
      ]
    ]
