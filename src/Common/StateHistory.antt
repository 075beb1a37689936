-- ===== src/Common/StateHistory.antt =====
-- src/common/StateHistory.hpp: the newest states in a ring. A row of the matrix is a state.
use cubesat_fsw_gnc.Prelude.{
  ℕ, ◌+◌, ◌-◌, ◌%◌, List, [], ◌∷◌, map, length, set, take, replicate, if◌then◌else◌, ltb, ◌==◌,
}
use cubesat_fsw_gnc.Double.{Double, Libm, Reductions, lit, ◌⊖◌, ◌⊗◌, ◌⊘◌}
use cubesat_fsw_gnc.Eigen.{Vector3, Quaternion, vector_zero}
use cubesat_fsw_gnc.Gnc.Interfaces.{State}
pub mod Rows
pub mod Newest
pub mod Tests

pub data Component : Type 0 where
  qw qx qy qz wx wy wz posx posy posz velx vely velz : Component

pub record StateHistory (D : Type 0) : Type 0 where
  pub max_size : ℕ
  pub current_size : ℕ
  pub head : ℕ
  pub rows : List (State D)

-- The column of a component.
unfoldable pub component : {D : Type 0} → Component → State D → D
component qw s = s.q.w
component qx s = s.q.x
component qy s = s.q.y
component qz s = s.q.z
component wx s = s.w.x
component wy s = s.w.y
component wz s = s.w.z
component posx s = s.pos.x
component posy s = s.pos.y
component posz s = s.pos.z
component velx s = s.vel.x
component vely s = s.vel.y
component velz s = s.vel.z

module _ {D : Type 0} where
  unfoldable pub add_state : StateHistory D → State D → StateHistory D
  add_state h state = record h {
    rows = set h.rows h.head state;
    head = (h.head + 1) % h.max_size;
    current_size = if ltb h.current_size h.max_size then h.current_size + 1 else h.current_size;
  }

  unfoldable pub get_component_history : StateHistory D → Component → List D
  unfolding component
  get_component_history h c = map (component c) (take h.current_size h.rows)

module _ {D : Type 0} ⦃d : Double D⦄ where
  unfoldable pub init : ℕ → StateHistory D
  init max_size = record {
    max_size = max_size;
    current_size = 0;
    head = 0;
    rows = replicate max_size (record {
      q = record { w = lit 0 0; x = lit 0 0; y = lit 0 0; z = lit 0 0 };
      w = vector_zero;
      pos = vector_zero;
      vel = vector_zero;
    });
  }

  -- A `double` of a small count is `lit n 0`.
  unfoldable pub mean : ⦃r : Reductions D⦄ → StateHistory D → Component → D
  unfolding get_component_history
  mean ⦃r⦄ h c = if h.current_size == 0 then lit 0 0 else r.mean (get_component_history h c)

  unfoldable pub stddev : ⦃r : Reductions D⦄ → ⦃libm : Libm D⦄ → StateHistory D → Component → D
  unfolding get_component_history
  stddev ⦃r⦄ ⦃libm⦄ h c =
      let slice = get_component_history h c in
      let m = r.mean slice in
      let squares = map (λ x. (x ⊖ m) ⊗ (x ⊖ m)) slice in
      if ltb h.current_size 2
      then lit 0 0
      else libm.sqrt (r.sum squares ⊘ lit (h.current_size - 1) 0)
