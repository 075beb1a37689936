-- ===== src/Gnc/Pid/Limits.antt =====
-- src/fsw/gnc/control/PID.hpp: the bound of the output, and what a reset keeps.
use cubesat_fsw_gnc.Prelude.{
  true, false, List, [], ◌∷◌, ◌≡◌, refl, arith, if◌then◌else◌, Bool-cases, inl, inr,
}
use cubesat_fsw_gnc.Double.{Double, IsOrdered, HasNan, lit, ◌≺◌, ◌≼◌}
use cubesat_fsw_gnc.Gnc.Pid.{
  PidConfig, Pid, init, clamp, i_term, d_term, calculate, reset, set_gains,
}

-- A call on the controller.
pub data Call (D : Type 0) : Type 0 where
  calculate_call : D → D → Call D
  reset_call : Call D
  set_gains_call : D → D → D → Call D

module _ {D : Type 0} ⦃d : Double D⦄ where
  -- At most the limit in either direction.
  unfoldable pub Within : D → D → Type 0
  Within limit a = (d.neg limit ≼ a ≡ true) × (a ≼ limit ≡ true)

  unfoldable pub call : Call D → Pid D → Pid D
  call (calculate_call error dt) p = (calculate p error dt).0
  call reset_call p = reset p
  call (set_gains_call kp ki kd) p = set_gains p kp ki kd

  unfoldable pub run : List (Call D) → Pid D → Pid D
  run [] p = p
  run (c ∷ cs) p = run cs (call c p)

  -- What `calculate` returns is what it records.
  last_output-calculate :
      (p : Pid D) (error dt : D) → (calculate p error dt).0.last_output ≡ (calculate p error dt).1
  unfolding calculate
  last_output-calculate p error dt = ground arith

  -- After a reset, a call is one on a new controller, save that in a time step that is not positive
  -- it still returns the effort from before the reset.
  pub reset-calculate :
      (p : Pid D) (error dt : D)
      → calculate (reset p) error dt
        ≡ (if dt ≼ lit 0 0 then (reset p, p.last_output) else calculate (init p.config) error dt)
  unfolding calculate reset init i_term d_term
  reset-calculate p error dt = elim (Bool-cases (dt ≼ lit 0 0)) [
    | inl h ↦ rw h refl
    | inr h ↦ rw h refl
  ]

  module _ (o : IsOrdered D) where
    -- The clamp has its bound even where it is given NaN.
    clamp-Within : (limit a : D) → d.neg limit ≼ limit ≡ true → Within limit (clamp limit a)
    unfolding Within clamp
    clamp-Within limit a h =
        ground (
          arith,
          o.le_of_lt a limit,
          o.le_of_lt (d.neg limit) a,
          o.le_refl_of_le (d.neg limit) limit,
        )

    calculate-Within :
        (p : Pid D) (error dt : D)
        → d.neg p.config.limit ≼ p.config.limit ≡ true
        → Within p.config.limit p.last_output
        → Within p.config.limit (calculate p error dt).0.last_output
    unfolding calculate
    calculate-Within p error dt h w = elim (Bool-cases (dt ≼ lit 0 0)) [
      | inl e ↦ rw e w
      | inr e ↦ rw e (clamp-Within p.config.limit _ h)
    ]

    limit-call : (c : Call D) (p : Pid D) → (call c p).config.limit ≡ p.config.limit
    unfolding call calculate reset set_gains
    limit-call (calculate_call error dt) p = ground arith
    limit-call reset_call p = refl
    limit-call (set_gains_call kp ki kd) p = refl

    call-Within :
        (c : Call D) (p : Pid D)
        → d.neg p.config.limit ≼ p.config.limit ≡ true
        → Within p.config.limit p.last_output
        → Within p.config.limit (call c p).last_output
    unfolding call reset set_gains
    call-Within (calculate_call error dt) p h w = calculate-Within p error dt h w
    call-Within reset_call p h w = w
    call-Within (set_gains_call kp ki kd) p h w = w

    run-Within :
        (cs : List (Call D)) (p : Pid D) (limit : D)
        → p.config.limit ≡ limit
        → d.neg limit ≼ limit ≡ true
        → Within limit p.last_output
        → Within limit (run cs p).last_output × ((run cs p).config.limit ≡ limit)
    unfolding run
    run-Within [] p limit e h w = (w, e)
    run-Within (c ∷ cs) p limit e h w =
        run-Within cs (call c p) limit (rw (limit-call c p) e) h
          (rw (← e) (call-Within c p (rw e h) (rw e w)))

    output-Within :
        (p : Pid D) (limit error dt : D)
        → p.config.limit ≡ limit
        → d.neg limit ≼ limit ≡ true
        → Within limit p.last_output
        → Within limit (calculate p error dt).1
    unfolding run call
    output-Within p limit error dt e h w =
        rw (← last_output-calculate p error dt)
          (run-Within (calculate_call error dt ∷ []) p limit e h w).0

    -- After any sequence of calls on a new controller, with any errors and time steps, NaN among
    -- them, an effort lies between the negated output limit and the limit, provided that zero does
    -- and that numbers compare as in IEEE 754.
    pub calculate-run :
        (config : PidConfig D) (cs : List (Call D)) (error dt : D)
        → d.neg config.limit ≼ config.limit ≡ true
        → Within config.limit (lit 0 0)
        → Within config.limit (calculate (run cs (init config)) error dt).1
    unfolding init
    calculate-run config cs error dt h w =
        let (a, e) = run-Within cs (init config) config.limit refl h w in
        output-Within (run cs (init config)) config.limit error dt e h a

  module _ (n : HasNan D) where
    -- A NaN error in a positive time step commands the full positive effort, where the negated
    -- limit is less than the limit.
    pub calculate-is_nan :
        (p : Pid D) (error dt : D)
        → n.is_nan error ≡ true
        → dt ≼ lit 0 0 ≡ false
        → d.neg p.config.limit ≺ p.config.limit ≡ true
        → (calculate p error dt).1 ≡ p.config.limit
    unfolding calculate clamp
    calculate-is_nan p error dt e t l =
        let a = n.nan_add _ (i_term p error dt) (n.mul_nan p.config.kp error e) in
        let b = n.nan_lt _ p.config.limit (n.nan_add _ (d_term p error dt) a) in rw (t, b, l) refl
