-- ===== src/Gnc/Mekf/Reset.antt =====
-- src/fsw/gnc/ekf/MEKF.cpp: what `reset` forgets.
use cubesat_fsw_gnc.Prelude.{◌≡◌, refl, ap, ◌∙◌, List, [], ◌∷◌}
use cubesat_fsw_gnc.Double.{Double, lit}
use cubesat_fsw_gnc.Eigen.{Eigen}
use cubesat_fsw_gnc.Linear.{Matrices}
use cubesat_fsw_gnc.Gnc.Interfaces.{SensorData}
use cubesat_fsw_gnc.Gnc.Mekf.{Mekf, init, reset, predict, update_quat, correct, update}

module _ {D M : Type 0} ⦃d : Double D⦄ ⦃e : Eigen D⦄ ⦃m : Matrices D M⦄ where
  -- Updates by cycles of measurements and time steps.
  unfoldable pub update_all : Mekf D M → List (SensorData D × D) → Mekf D M
  update_all f [] = f
  update_all f ((sensors, dt) ∷ rest) = update_all (update f sensors dt) rest

  update-w_est :
      (f : Mekf D M) (sensors : SensorData D) (dt : D)
      → update f sensors dt ≡ update (record f { w_est = (init {M = M}).w_est }) sensors dt
  unfolding update predict update_quat correct
  update-w_est f sensors dt = refl

  -- A reset leaves the estimated rate as it was. From the first update on, the filter is like a new
  -- one: any updates, one or more, lead from both to the same filter, given that a matrix times one
  -- is itself.
  pub update_all-reset :
      (f : Mekf D M) (sensors : SensorData D) (dt : D) (rest : List (SensorData D × D))
      → ((a : M) → m.scale (lit 1 0) a ≡ a)
      → ((reset f).w_est ≡ f.w_est)
        × (update_all (reset f) ((sensors, dt) ∷ rest) ≡ update_all init ((sensors, dt) ∷ rest))
  unfolding update_all reset init
  update_all-reset f sensors dt rest one = (
    refl,
    ap (λ g. update_all g rest)
        (update-w_est (reset f) sensors dt
          ∙ ap (λ p. update (record init { p = p }) sensors dt) (one (m.identity 6))),
  )
