-- ===== src/Gnc/Lqr/Shape.antt =====
-- src/fsw/gnc/control: gain matrices keep their shape, so the regulator is never silent.
use cubesat_fsw_gnc.Prelude.{
  ℕ, ◌≡◌, refl, ap, ◌∙◌, inl, inr, ◌&&◌, List, [], ◌∷◌, some, Bool-cases, arith, ◌==◌,
  if◌then◌else◌,
}
use cubesat_fsw_gnc.Double.{Double, Libm}
use cubesat_fsw_gnc.Eigen.{Eigen, Vector3, Quaternion}
use cubesat_fsw_gnc.Linear.{Matrices}
use cubesat_fsw_gnc.Gnc.Mekf.{Mekf}
use cubesat_fsw_gnc.Gnc.Lqr.{Lqr, default_config, compute_torque, set_gains}
use cubesat_fsw_gnc.Gnc.Lqr.Lqg.{regulated, lqg_torque}

-- The sizes of Eigen's matrices.
pub record HasShapes (D M : Type 0) ⦃m : Matrices D M⦄ : Type 0 where
  pub rows-zero : (r c : ℕ) → m.rows (m.zero r c) ≡ r
  pub cols-zero : (r c : ℕ) → m.cols (m.zero r c) ≡ c
  pub rows-set_at : (a : M) (i j : ℕ) (x : D) → m.rows (m.set_at a i j x) ≡ m.rows a
  pub cols-set_at : (a : M) (i j : ℕ) (x : D) → m.cols (m.set_at a i j x) ≡ m.cols a
  pub rows-stack : (v w : Vector3 D) → m.rows (m.stack v w) ≡ 6

module _ (D : Type 0) {M : Type 0} ⦃m : Matrices D M⦄ where
  abbrev pub IsGain : M → Type 0
  IsGain k = (m.rows k ≡ 3) × (m.cols k ≡ 6)

  -- Many gains, one after the other, and the last of them that has the shape of a gain matrix.
  unfoldable pub set_all : Lqr M → List M → Lqr M
  set_all c [] = c
  set_all c (k ∷ ks) = set_all (set_gains D c k) ks

  unfoldable pub last_gain : M → List M → M
  last_gain k [] = k
  last_gain k (new ∷ ks) = last_gain (if (m.rows new == 3) && (m.cols new == 6) then new else k) ks

  set_gains_lem :
      (c : Lqr M) (k : M)
      → (set_gains D c k).k ≡ (if (m.rows k == 3) && (m.cols k == 6) then k else c.k)
  unfolding set_gains
  set_gains_lem c k = elim (Bool-cases ((m.rows k == 3) && (m.cols k == 6))) [
    | inl p ↦ rw p refl
    | inr p ↦ rw p refl
  ]

  set_all_lem : (c : Lqr M) (ks : List M) → (set_all c ks).k ≡ last_gain c.k ks
  unfolding set_all last_gain
  set_all_lem c [] = refl
  set_all_lem c (k ∷ ks) =
      set_all_lem (set_gains D c k) ks ∙ ap (λ x. last_gain x ks) (set_gains_lem c k)

  last_gain-IsGain : (k : M) (ks : List M) → IsGain k → IsGain (last_gain k ks)
  unfolding last_gain
  last_gain-IsGain k [] h = h
  last_gain-IsGain k (new ∷ ks) h = elim (Bool-cases ((m.rows new == 3) && (m.cols new == 6))) [
    | inl p ↦ rw p (last_gain-IsGain new ks (ground (arith, p)))
    | inr p ↦ rw p (last_gain-IsGain k ks h)
  ]

module _ (D M : Type 0) ⦃m : Matrices D M⦄ ⦃shapes : HasShapes D M⦄ where
  IsGain-set_at : (a : M) (i j : ℕ) (x : D) → IsGain D a → IsGain D (m.set_at a i j x)
  IsGain-set_at a i j x (r, c) = (shapes.rows-set_at a i j x ∙ r, shapes.cols-set_at a i j x ∙ c)

  IsGain-default_config : (q_rot q_rate : D) → IsGain D (default_config {M = M} q_rot q_rate)
  unfolding default_config
  IsGain-default_config q_rot q_rate = IsGain-set_at _ _ _ _ (
      IsGain-set_at _ _ _ _ (
        IsGain-set_at _ _ _ _ (
          IsGain-set_at _ _ _ _ (
            IsGain-set_at _ _ _ _
              (IsGain-set_at _ _ _ _ (shapes.rows-zero 3 6, shapes.cols-zero 3 6))))))

module _ {D M : Type 0} ⦃d : Double D⦄ ⦃e : Eigen D⦄ ⦃libm : Libm D⦄ ⦃m : Matrices D M⦄
    ⦃shapes : HasShapes D M⦄ where
  compute_torque-IsGain :
      (c : Lqr M) (x : M)
      → IsGain D c.k
      → m.rows x ≡ 6
      → compute_torque c x ≡ m.segment3 (m.mul (m.negate c.k) x) 0
  unfolding compute_torque
  compute_torque-IsGain c x (r, s) t = rw (t, s, r) refl

  -- From the default gains, whatever gain matrices are set, the controller with a filter never
  -- falls back to a zero torque for a wrong shape: its torque is the negative of the last gain
  -- matrix of three rows and six columns, or of the default one, times the state vector; given how
  -- sizes of matrices behave.
  pub lqg_torque-set_all :
      (f : Mekf D M) (q_rot q_rate : D) (ks : List M) (q_target : Quaternion D)
      (omega_target omega_meas : Vector3 D)
      → let c : Lqr M = record { k = default_config q_rot q_rate } in
        lqg_torque (record { mekf = some f; lqr = set_all D c ks }) q_target omega_target omega_meas
        ≡ m.segment3
            (m.mul
              (m.negate (last_gain D (default_config q_rot q_rate) ks))
              (regulated f q_target omega_target omega_meas))
            0
  unfolding lqg_torque regulated
  lqg_torque-set_all f q_rot q_rate ks q_target omega_target omega_meas =
      let c : Lqr M = record { k = default_config q_rot q_rate } in
      let g = last_gain-IsGain D c.k ks (IsGain-default_config D M q_rot q_rate) in
      let x = regulated f q_target omega_target omega_meas in
      rw (← set_all_lem D c ks) (
        compute_torque-IsGain (set_all D c ks) x (rw (set_all_lem D c ks) g)
          (shapes.rows-stack _ _))
