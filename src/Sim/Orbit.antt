-- ===== src/Sim/Orbit.antt =====
-- src/sim/dynamics/Orbit.hpp and Orbit.cpp: the motion around the Earth with its oblateness, and the
-- orbital elements of a state. The state is a column of position and velocity.
pub mod Domain
use cubesat_fsw_gnc.Prelude.{Bool, if◌then◌else◌}
use cubesat_fsw_gnc.Sim.Integrator.{matrix_state, rk4}
use cubesat_fsw_gnc.Double.{◌⊖◌, ◌⊘◌, Libm, ◌⊗◌, lit, ◌≺◌, Double}
use cubesat_fsw_gnc.Eigen.{Eigen, Vector3}
use cubesat_fsw_gnc.Linear.{Matrices}

pub record Orbit (M : Type 0) : Type 0 where
  pub state : M
  pub enable_j2 : Bool

module _ {D : Type 0} ⦃d : Double D⦄ where
  unfoldable pub mu_earth : D
  mu_earth = lit 398600441800000 0

  unfoldable pub j2_earth : D
  j2_earth = lit 108263 8

  unfoldable pub r_earth : D
  r_earth = lit 6378137 0

  unfoldable pub pi : D
  pi = lit 314159265358979323846 20

module _ {D M : Type 0} ⦃m : Matrices D M⦄ where
  unfoldable pub init : Vector3 D → Vector3 D → Bool → Orbit M
  init pos vel enable_j2 = record { state = m.stack pos vel; enable_j2 = enable_j2 }

  unfoldable pub get_position : Orbit M → Vector3 D
  get_position o = m.segment3 o.state 0

  unfoldable pub get_velocity : Orbit M → Vector3 D
  get_velocity o = m.segment3 o.state 3

module _ {D : Type 0} ⦃d : Double D⦄ ⦃e : Eigen D⦄ where
  -- The acceleration by the oblateness.
  unfoldable pub compute_j2_acceleration : Vector3 D → Vector3 D
  unfolding mu_earth j2_earth r_earth
  compute_j2_acceleration pos =
      let r = e.norm pos in
      let r2 = r ⊗ r in
      let r5 = r2 ⊗ r2 ⊗ r in
      let z_r = pos.z ⊘ r in
      let z_r2 = z_r ⊗ z_r in
      let factor = lit 15 1 ⊗ j2_earth ⊗ mu_earth ⊗ r_earth ⊗ r_earth ⊘ r5 in
      let xy_factor = factor ⊗ (lit 5 0 ⊗ z_r2 ⊖ lit 1 0) in
      let z_factor = factor ⊗ (lit 5 0 ⊗ z_r2 ⊖ lit 3 0) in
      record { x = xy_factor ⊗ pos.x; y = xy_factor ⊗ pos.y; z = z_factor ⊗ pos.z }

  -- The normal `r × v` of the orbit, and the line of nodes `k × h`.
  unfoldable pub momentum : Vector3 D → Vector3 D → Vector3 D
  momentum pos vel = e.cross pos vel

  unfoldable pub node : Vector3 D → Vector3 D
  node h = e.cross (record { x = lit 0 0; y = lit 0 0; z = lit 1 0 }) h

  -- `(v × h) / mu - r / |r|`
  unfoldable pub eccentricity_vector : Vector3 D → Vector3 D → Vector3 D
  unfolding mu_earth momentum
  eccentricity_vector pos vel =
      e.sub (e.divide (e.cross vel (momentum pos vel)) mu_earth) (e.divide pos (e.norm pos))

module _ {D M : Type 0} ⦃d : Double D⦄ ⦃e : Eigen D⦄ ⦃m : Matrices D M⦄ where
  unfoldable pub get_semi_major_axis : Orbit M → D
  unfolding mu_earth
  get_semi_major_axis o =
      let r = e.norm (get_position o) in
      let v2 = e.squared_norm (get_velocity o) in
      let energy = lit 5 1 ⊗ v2 ⊖ mu_earth ⊘ r in d.neg mu_earth ⊘ (lit 2 0 ⊗ energy)

  unfoldable pub get_eccentricity : Orbit M → D
  unfolding eccentricity_vector
  get_eccentricity o = e.norm (eccentricity_vector (get_position o) (get_velocity o))

module _ {D M : Type 0} ⦃d : Double D⦄ ⦃e : Eigen D⦄ ⦃l : Libm D⦄ ⦃m : Matrices D M⦄ where
  -- The derivative of the state.
  unfoldable pub dynamics : Orbit M → D → M → M
  unfolding mu_earth
  dynamics o t y =
      let pos = m.segment3 y 0 in
      let vel = m.segment3 y 3 in
      let mu_r3 = mu_earth ⊘ l.pow (e.norm pos) (lit 3 0) in
      let acc = e.scale (d.neg mu_r3) pos in
      m.stack vel (if o.enable_j2 then e.add acc (compute_j2_acceleration pos) else acc)

  unfoldable pub step : Orbit M → D → Orbit M
  step o dt = record o { state = rk4 (lit 0 0) o.state dt (λ t y. dynamics o t y) }

  unfoldable pub get_inclination : Orbit M → D
  unfolding momentum
  get_inclination o = let h = momentum (get_position o) (get_velocity o) in l.acos (h.z ⊘ e.norm h)

  unfoldable pub get_raan : Orbit M → D
  unfolding node momentum
  get_raan o =
      let n = node (momentum (get_position o) (get_velocity o)) in
      if e.norm n ≺ lit 1 10 then lit 0 0 else l.atan2 n.y n.x

module _ {D : Type 0} ⦃d : Double D⦄ where
  -- `std::clamp`
  unfoldable pub clamp : D → D → D → D
  clamp a low high = if a ≺ low then low else (if high ≺ a then high else a)

module _ {D : Type 0} ⦃d : Double D⦄ ⦃e : Eigen D⦄ ⦃l : Libm D⦄ where
  -- The angle between the node and the perigee, which the quadrant turns over.
  unfoldable pub perigee_angle : Vector3 D → Vector3 D → D
  unfolding clamp pi
  perigee_angle n e_vec =
      let cos_omega = e.dot n e_vec ⊘ (e.norm n ⊗ e.norm e_vec) in
      let omega = l.acos (clamp cos_omega (d.neg (lit 1 0)) (lit 1 0)) in
      if e_vec.z ≺ lit 0 0 then lit 2 0 ⊗ pi ⊖ omega else omega

  -- The argument of perigee by the node and the eccentricity vector.
  unfoldable pub perigee : Vector3 D → Vector3 D → D
  unfolding perigee_angle
  perigee n e_vec =
      if e.norm e_vec ≺ lit 1 10
      then lit 0 0
      else (if e.norm n ≺ lit 1 10 then l.atan2 e_vec.y e_vec.x else perigee_angle n e_vec)

module _ {D M : Type 0} ⦃d : Double D⦄ ⦃e : Eigen D⦄ ⦃l : Libm D⦄ ⦃m : Matrices D M⦄ where
  unfoldable pub get_argument_of_perigee : Orbit M → D
  unfolding node momentum eccentricity_vector perigee
  get_argument_of_perigee o =
      let pos = get_position o in
      let vel = get_velocity o in perigee (node (momentum pos vel)) (eccentricity_vector pos vel)
