-- ===== src/Sim/Orbit/Domain.antt =====
-- src/sim/dynamics/Orbit.cpp: the argument of perigee stays in the domain of the arc cosine.
use cubesat_fsw_gnc.Prelude.{◌≡◌, refl, inl, inr, true, false, Bool-cases}
use cubesat_fsw_gnc.Sim.Orbit.{
  eccentricity_vector, get_velocity, get_position, momentum, node, Orbit, get_argument_of_perigee,
  Matrices, Vector3, perigee_angle, perigee, Eigen, lit, Double, pi, clamp,
}
use cubesat_fsw_gnc.Double.{◌⊖◌, ◌⊗◌, ◌≺◌, ◌⊘◌, Libm, ◌≼◌, IsOrdered}

-- A number brought to the range from -1 to 1; a NaN is left as it is.
pub data IsClamped {D : Type 0} ⦃d : Double D⦄ (a c : D) : Type 0 where
  within : d.neg (lit 1 0) ≼ a ≡ true → a ≼ lit 1 0 ≡ true → c ≡ a → IsClamped a c
  too_low : a ≺ d.neg (lit 1 0) ≡ true → c ≡ d.neg (lit 1 0) → IsClamped a c
  too_high : lit 1 0 ≺ a ≡ true → c ≡ lit 1 0 → IsClamped a c
  invalid : a ≼ a ≡ false → c ≡ a → IsClamped a c

module _ {D : Type 0} ⦃d : Double D⦄ (o : IsOrdered D) where
  clamp-IsClamped :
      (a : D) → d.neg (lit 1 0) ≼ lit 1 0 ≡ true → IsClamped a (clamp a (d.neg (lit 1 0)) (lit 1 0))
  unfolding clamp
  clamp-IsClamped a h = elim (Bool-cases (a ≺ d.neg (lit 1 0))) [
    | inl low ↦ too_low low (rw low refl)
    | inr low ↦ elim (Bool-cases (lit 1 0 ≺ a)) [
      | inl high ↦ too_high high (rw (low, high) refl)
      | inr high ↦ elim (Bool-cases (a ≼ a)) [
        | inl real ↦
            let (one_low, one_high) = o.le_refl_of_le (d.neg (lit 1 0)) (lit 1 0) h in
            within (o.le_of_not_lt a (d.neg (lit 1 0)) real one_low low)
              (o.le_of_not_lt (lit 1 0) a one_high real high) (rw (low, high) refl)
        | inr wrong ↦ invalid wrong (rw (low, high) refl)
      ]
    ]
  ]

-- The cosine of the angle between the node and the perigee.
abbrev pub cosine : {D : Type 0} → ⦃d : Double D⦄ → ⦃e : Eigen D⦄ → Vector3 D → Vector3 D → D
cosine ⦃e = e⦄ n e_vec = e.dot n e_vec ⊘ (e.norm n ⊗ e.norm e_vec)

-- What the argument of perigee is made of.
pub data IsPerigee {D : Type 0} ⦃d : Double D⦄ ⦃e : Eigen D⦄ ⦃l : Libm D⦄ (n e_vec : Vector3 D)
    (a : D) : Type 0 where
  circular : e.norm e_vec ≺ lit 1 10 ≡ true → a ≡ lit 0 0 → IsPerigee n e_vec a
  equatorial :
      e.norm e_vec ≺ lit 1 10 ≡ false
      → e.norm n ≺ lit 1 10 ≡ true
      → a ≡ l.atan2 e_vec.y e_vec.x
      → IsPerigee n e_vec a
  northern :
      e.norm e_vec ≺ lit 1 10 ≡ false
      → e.norm n ≺ lit 1 10 ≡ false
      → e_vec.z ≺ lit 0 0 ≡ false
      → (c : D) → IsClamped (cosine n e_vec) c
      → a ≡ l.acos c
      → IsPerigee n e_vec a
  southern :
      e.norm e_vec ≺ lit 1 10 ≡ false
      → e.norm n ≺ lit 1 10 ≡ false
      → e_vec.z ≺ lit 0 0 ≡ true
      → (c : D) → IsClamped (cosine n e_vec) c
      → a ≡ lit 2 0 ⊗ pi ⊖ l.acos c
      → IsPerigee n e_vec a

module _ {D : Type 0} ⦃d : Double D⦄ ⦃e : Eigen D⦄ ⦃l : Libm D⦄ (o : IsOrdered D)
    (ordered : d.neg (lit 1 0) ≼ lit 1 0 ≡ true) where
  perigee_angle-IsPerigee :
      (n e_vec : Vector3 D)
      → e.norm e_vec ≺ lit 1 10 ≡ false
      → e.norm n ≺ lit 1 10 ≡ false
      → IsPerigee n e_vec (perigee_angle n e_vec)
  unfolding perigee_angle
  perigee_angle-IsPerigee n e_vec t u =
      let c = clamp (cosine n e_vec) (d.neg (lit 1 0)) (lit 1 0) in
      let clamped = clamp-IsClamped o (cosine n e_vec) ordered in
      elim (Bool-cases (e_vec.z ≺ lit 0 0)) [
        | inl s ↦ southern t u s c clamped (rw s refl)
        | inr s ↦ northern t u s c clamped (rw s refl)
      ]

  perigee-IsPerigee : (n e_vec : Vector3 D) → IsPerigee n e_vec (perigee n e_vec)
  unfolding perigee
  perigee-IsPerigee n e_vec = elim (Bool-cases (e.norm e_vec ≺ lit 1 10)) [
    | inl t ↦ circular t (rw t refl)
    | inr t ↦ elim (Bool-cases (e.norm n ≺ lit 1 10)) [
      | inl u ↦ equatorial t u (rw (t, u) refl)
      | inr u ↦ rw (t, u) (perigee_angle-IsPerigee n e_vec t u)
    ]
  ]

module _ {D M : Type 0} ⦃d : Double D⦄ ⦃e : Eigen D⦄ ⦃l : Libm D⦄ ⦃m : Matrices D M⦄
    (p : IsOrdered D) where
  -- Given the comparisons of IEEE 754 and -1 at most 1, the argument of perigee is 0 in a circular
  -- orbit; an arc tangent in an equatorial orbit that is not circular; and in every other orbit the
  -- arc cosine of the cosine between node and perigee, brought to the range from -1 to 1 if it is a
  -- number, and turned over where the perigee lies south.
  pub get_argument_of_perigee-IsPerigee :
      d.neg (lit 1 0) ≼ lit 1 0 ≡ true
      → (o : Orbit M)
      → IsPerigee {D = D}
          (node (momentum (get_position o) (get_velocity o)))
          (eccentricity_vector (get_position o) (get_velocity o))
          (get_argument_of_perigee o)
  unfolding get_argument_of_perigee
  get_argument_of_perigee-IsPerigee ordered o =
      perigee-IsPerigee p ordered (node (momentum (get_position o) (get_velocity o)))
        (eccentricity_vector (get_position o) (get_velocity o))
