-- ===== src/Core/DataStore.antt =====
-- src/fsw/core/DataStore.hpp: topics with a latest value and subscribers. A callback changes the state
-- `W` of its subscriber. The mutex is held while subscribers run, so they may not call the store.
use Prim.Native.String.{String}
use cubesat_fsw_gnc.Prelude.{List, [], ◌∷◌, ◌++◌, Bool, Option, none, some}
use mathlib.Core.Option
use cubesat_fsw_gnc.Prelude.Dict.{Dict, lookup, insert}
use cubesat_fsw_gnc.Eigen.{Vector3, Quaternion}
use cubesat_fsw_gnc.Fdir.Health.{HealthStatus}

-- The message of src/fsw/gnc/control/AttitudeController.hpp.
pub record GainsPayload (D : Type 0) : Type 0 where
  pub kp : D
  pub ki : D
  pub kd : D
  pub is_nominal : Bool

-- `std::any` over the types that are published.
pub data Any (D : Type 0) : Type 0 where
  any_string : String → Any D
  any_vector3 : Vector3 D → Any D
  any_quaternion : Quaternion D → Any D
  any_gains : GainsPayload D → Any D
  any_status : HealthStatus → Any D

-- A type that a store can hold: its `std::any`, and `std::any_cast` to it.
pub record Payload (D T : Type 0) : Type 0 where
  pub to_any : T → Any D
  pub any_cast : Any D → Option T

abbrev cast_string : {D : Type 0} → Any D → Option String
cast_string (any_string a) = some a
cast_string a = none

abbrev cast_vector3 : {D : Type 0} → Any D → Option (Vector3 D)
cast_vector3 (any_vector3 a) = some a
cast_vector3 a = none

abbrev cast_quaternion : {D : Type 0} → Any D → Option (Quaternion D)
cast_quaternion (any_quaternion a) = some a
cast_quaternion a = none

abbrev cast_gains : {D : Type 0} → Any D → Option (GainsPayload D)
cast_gains (any_gains a) = some a
cast_gains a = none

abbrev cast_status : {D : Type 0} → Any D → Option HealthStatus
cast_status (any_status a) = some a
cast_status a = none

instance abbrev pub string_payload : {D : Type 0} → Payload D String
string_payload = record { to_any = any_string; any_cast = cast_string }

instance abbrev pub vector3_payload : {D : Type 0} → Payload D (Vector3 D)
vector3_payload = record { to_any = any_vector3; any_cast = cast_vector3 }

instance abbrev pub quaternion_payload : {D : Type 0} → Payload D (Quaternion D)
quaternion_payload = record { to_any = any_quaternion; any_cast = cast_quaternion }

instance abbrev pub gains_payload : {D : Type 0} → Payload D (GainsPayload D)
gains_payload = record { to_any = any_gains; any_cast = cast_gains }

instance abbrev pub status_payload : {D : Type 0} → Payload D HealthStatus
status_payload = record { to_any = any_status; any_cast = cast_status }

pub record DataStore (D W : Type 0) : Type 0 where
  pub data_map : Dict (Any D)
  pub subscribers : Dict (List (Any D → W → W))

-- What `get` makes of an entry: `false` is `none`, also for a value of another type.
abbrev pub read_entry : {D T : Type 0} → ⦃p : Payload D T⦄ → Option (Any D) → Option T
read_entry none = none
read_entry ⦃p⦄ (some a) = p.any_cast a

module _ {D W : Type 0} where
  unfoldable pub notify : List (Any D → W → W) → Any D → W → W
  notify [] a w = w
  notify (cb ∷ cbs) a w = notify cbs a (cb a w)

  -- Every subscriber of the topic is called, in the order of subscription.
  unfoldable pub publish :
      {T : Type 0} → ⦃p : Payload D T⦄ → DataStore D W → String → T → W → DataStore D W × W
  unfolding notify
  publish ⦃p⦄ s topic value w =
      let a = p.to_any value in
      (
        record s { data_map = insert topic a s.data_map },
        notify (Option.get_or (lookup topic s.subscribers) []) a w,
      )

  -- The wrapper drops a value of another type.
  unfoldable pub subscribe :
      {T : Type 0} → ⦃p : Payload D T⦄ → DataStore D W → String → (T → W → W) → DataStore D W
  subscribe ⦃p⦄ s topic callback =
      let wrapper : Any D → W → W =
        λ a w. elim (p.any_cast a) [ none ↦ w | some value ↦ callback value w ] in
      let before = Option.get_or (lookup topic s.subscribers) [] in
      record s { subscribers = insert topic (before ++ wrapper ∷ []) s.subscribers }

  unfoldable pub get : {T : Type 0} → ⦃p : Payload D T⦄ → DataStore D W → String → Option T
  get s topic = read_entry (lookup topic s.data_map)

  -- `Reset`
  unfoldable pub clear : DataStore D W → DataStore D W
  clear s = record { data_map = []; subscribers = [] }
