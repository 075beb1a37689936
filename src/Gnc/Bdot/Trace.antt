-- ===== src/Gnc/Bdot/Trace.antt =====
-- src/fsw/gnc/control/Bdot.cpp over a whole run of cycles.
use cubesat_fsw_gnc.Prelude.{false, List, [], ◌∷◌, ◌≡◌, refl, ap}
use cubesat_fsw_gnc.Double.{Double, lit, ◌≼◌}
use cubesat_fsw_gnc.Eigen.{Eigen, Vector3, vector_zero}
use cubesat_fsw_gnc.Gnc.Interfaces.{SensorData, State, GuidanceTarget}
use cubesat_fsw_gnc.Gnc.Bdot.{Bdot, reset, update}

-- What `update` is given in one cycle.
abbrev pub Cycle : Type 0 → Type 0
Cycle D = SensorData D × State D × GuidanceTarget D × D

module _ {D : Type 0} ⦃d : Double D⦄ ⦃e : Eigen D⦄ where
  -- The commands of a run of cycles.
  unfoldable pub commands : Bdot D → List (Cycle D) → List (Vector3 D)
  commands c [] = []
  commands c ((sensors, state, target, dt) ∷ us) =
      let (new, cmd) = update c sensors state target dt in cmd ∷ commands new us

  -- The gain times the rates of change between neighbours, negated.
  unfoldable pub against_change : D → Vector3 D → List (Cycle D) → List (Vector3 D)
  against_change gain b [] = []
  against_change gain b ((sensors, state, target, dt) ∷ us) =
      e.scale (d.neg gain) (e.divide (e.sub sensors.mag_body b) dt)
      ∷ against_change gain sensors.mag_body us

  -- Every time step is longer than the least that is used.
  unfoldable pub AllLong : List (Cycle D) → Type 0
  AllLong [] = Unit
  AllLong ((sensors, state, target, dt) ∷ us) = (dt ≼ lit 1 6 ≡ false) × AllLong us

  commands-against_change :
      (c : Bdot D) (us : List (Cycle D))
      → c.first_run ≡ false
      → AllLong us
      → commands c us ≡ against_change c.gain c.b_prev us
  unfolding commands against_change AllLong update
  commands-against_change c [] f l = refl
  commands-against_change c ((sensors, state, target, dt) ∷ us) f (h, l) =
      rw (f, h)
        (ap (λ vs. e.scale (d.neg c.gain) (e.divide (e.sub sensors.mag_body c.b_prev) dt) ∷ vs)
          (commands-against_change
            (record { gain = c.gain; b_prev = sensors.mag_body; first_run = false }) us refl l))

  -- After a reset the first command is zero; if every later time step is longer than a microsecond,
  -- each later one is the change of the field since the cycle before, over the time step, times the
  -- negated gain.
  pub commands-reset :
      (c : Bdot D) (sensors : SensorData D) (state : State D) (target : GuidanceTarget D) (dt : D)
      (us : List (Cycle D))
      → AllLong us
      → commands (reset c) ((sensors, state, target, dt) ∷ us)
        ≡ vector_zero ∷ against_change c.gain sensors.mag_body us
  unfolding commands update reset
  commands-reset c sensors state target dt us l =
      ap (λ vs. vector_zero ∷ vs)
        (commands-against_change
          (record { gain = c.gain; b_prev = sensors.mag_body; first_run = false }) us refl l)
