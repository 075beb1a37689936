-- ===== src/Core/CommandManager/Drain.antt =====
-- What draining the queue of src/fsw/core/CommandManager.cpp does to the attitude controller and to
-- the topics of guidance.
use Prim.Native.String.{String}
use cubesat_fsw_gnc.Prelude.{List, [], ◌∷◌, ◌≡◌, refl, ap, ap₂, ◌∙◌, Option, some}
use cubesat_fsw_gnc.Prelude.Dict.{Dict, lookup, insert, lookup-insert, lookup-insert_self}
use cubesat_fsw_gnc.Double.{Double}
use cubesat_fsw_gnc.Eigen.{Quaternion}
use cubesat_fsw_gnc.Core.DataStore.{
  Any, any_string, any_quaternion, DataStore, get, read_entry, string_payload, quaternion_payload,
  gains_payload,
}
use cubesat_fsw_gnc.Core.CommandManager.{CommandManager, execute, drain, update, subscribe_gains}
use cubesat_fsw_gnc.Telemetry.Command.{
  Command, slew_to_nadir_command, set_pid_gains_command, slew_to_target_command,
}
use cubesat_fsw_gnc.Gnc.AttitudeController.{AttitudeController, set_gains}

module _ {D : Type 0} ⦃d : Double D⦄ where
  -- The controller after the gains commands among these.
  unfoldable pub gained : List (Command D) → AttitudeController D → AttitudeController D
  gained [] c = c
  gained (set_pid_gains_command kp ki kd is_nominal ∷ cmds) c =
      gained cmds (set_gains c kp ki kd is_nominal)
  gained (slew_to_nadir_command ∷ cmds) c = gained cmds c
  gained (slew_to_target_command q ∷ cmds) c = gained cmds c

  -- The pointing mode and the target after the slew commands among these.
  unfoldable pub aimed :
      List (Command D)
      → Option String × Option (Quaternion D)
      → Option String × Option (Quaternion D)
  aimed [] a = a
  aimed (set_pid_gains_command kp ki kd is_nominal ∷ cmds) a = aimed cmds a
  aimed (slew_to_nadir_command ∷ cmds) (mode, q) = aimed cmds (some "NADIR", q)
  aimed (slew_to_target_command q ∷ cmds) a = aimed cmds (some "TARGET", some q)

  -- A store to which only the attitude controller has subscribed.
  abbrev pub connected : DataStore D (AttitudeController D)
  connected = subscribe_gains (record { data_map = []; subscribers = [] })

  abbrev pub aim : {W : Type 0} → DataStore D W → Option String × Option (Quaternion D)
  aim s = (get s "guidance/target_mode", get s "guidance/target_quaternion")

  -- Entries of the two topics of guidance and of the gains do not disturb each other.
  mode_kept :
      (a : Any D) (m : Dict (Any D))
      → lookup "guidance/target_mode" (insert "guidance/target_quaternion" a m)
        ≡ lookup "guidance/target_mode" m
  mode_kept a m = lookup-insert "guidance/target_quaternion" "guidance/target_mode" a m

  target_kept :
      (a : Any D) (m : Dict (Any D))
      → lookup "guidance/target_quaternion" (insert "guidance/target_mode" a m)
        ≡ lookup "guidance/target_quaternion" m
  target_kept a m = lookup-insert "guidance/target_mode" "guidance/target_quaternion" a m

  -- What the two topics say in a map.
  abbrev aim_of : Dict (Any D) → Option String × Option (Quaternion D)
  aim_of m = (
    read_entry (lookup "guidance/target_mode" m),
    read_entry (lookup "guidance/target_quaternion" m),
  )

  gains_kept : (a : Any D) (m : Dict (Any D)) → aim_of (insert "gnc/att_gains" a m) ≡ aim_of m
  gains_kept a m =
      ap₂ (λ x y. (read_entry {T = String} x, read_entry {T = Quaternion D} y))
        (lookup-insert "gnc/att_gains" "guidance/target_mode" a m)
        (lookup-insert "gnc/att_gains" "guidance/target_quaternion" a m)

  -- Commands act one after the other.
  gained-cons :
      (cmd : Command D) (cmds : List (Command D)) (c : AttitudeController D)
      → gained cmds (gained (cmd ∷ []) c) ≡ gained (cmd ∷ cmds) c
  unfolding gained
  gained-cons slew_to_nadir_command cmds c = refl
  gained-cons (set_pid_gains_command kp ki kd n) cmds c = refl
  gained-cons (slew_to_target_command q) cmds c = refl

  aimed-cons :
      (cmd : Command D) (cmds : List (Command D)) (a : Option String × Option (Quaternion D))
      → aimed cmds (aimed (cmd ∷ []) a) ≡ aimed (cmd ∷ cmds) a
  unfolding aimed
  aimed-cons slew_to_nadir_command cmds a = refl
  aimed-cons (set_pid_gains_command kp ki kd n) cmds a = refl
  aimed-cons (slew_to_target_command q) cmds a = refl

  execute_lem :
      (cmd : Command D) (s : DataStore D (AttitudeController D)) (c : AttitudeController D)
      → s.subscribers ≡ connected.subscribers
      → let (s', c') = execute cmd s c in
        (s'.subscribers ≡ connected.subscribers)
        × (c' ≡ gained (cmd ∷ []) c)
        × (aim s' ≡ aimed (cmd ∷ []) (aim s))
  unfolding execute subscribe_gains get gained aimed lookup insert
  execute_lem slew_to_nadir_command s c h = rw h (
    refl,
    refl,
    ap₂ (λ x y. (read_entry {T = String} x, read_entry {T = Quaternion D} y))
        (lookup-insert_self "guidance/target_mode" (any_string "NADIR") s.data_map)
        (target_kept (any_string "NADIR") s.data_map),
  )
  execute_lem (set_pid_gains_command kp ki kd is_nominal) s c h =
      rw h (refl, refl, gains_kept _ s.data_map)
  execute_lem (slew_to_target_command q) s c h =
      let m = insert "guidance/target_quaternion" (any_quaternion q) s.data_map in
      rw h (
        refl,
        refl,
        ap₂ (λ x y. (read_entry {T = String} x, read_entry {T = Quaternion D} y))
            (lookup-insert_self "guidance/target_mode" (any_string "TARGET") m)
            (target_kept (any_string "TARGET") m
              ∙ lookup-insert_self "guidance/target_quaternion" (any_quaternion q) s.data_map),
      )

  drain_lem :
      (cmds : List (Command D)) (s : DataStore D (AttitudeController D)) (c : AttitudeController D)
      → s.subscribers ≡ connected.subscribers
      → let (s', c') = drain cmds s c in (c' ≡ gained cmds c) × (aim s' ≡ aimed cmds (aim s))
  unfolding drain gained aimed
  drain_lem [] s c h = (refl, refl)
  drain_lem (cmd ∷ cmds) s c h =
      let (h', e, a) = execute_lem cmd s c h in
      let s' = (execute cmd s c).0 in
      let c' = (execute cmd s c).1 in
      let (e', a') = drain_lem cmds s' c' h' in
      (
        e' ∙ ap (gained cmds) e ∙ gained-cons cmd cmds c,
        a' ∙ ap (aimed cmds) a ∙ aimed-cons cmd cmds (aim s),
      )

  -- With the attitude controller as the only subscriber, a run of the command manager empties the
  -- queue; the controller then has the gains that the gains commands set in order, and the topics
  -- of guidance hold the mode and the target of the last slew commands, or what they held before.
  pub update-connected :
      (m : CommandManager D) (s : DataStore D (AttitudeController D)) (c : AttitudeController D)
      → s.subscribers ≡ connected.subscribers
      → let (m', s', c') = update m s c in
        (m'.command_queue ≡ [])
        × (c' ≡ gained m.command_queue c)
        × (aim s' ≡ aimed m.command_queue (aim s))
  unfolding update
  update-connected m s c h = let (e, a) = drain_lem m.command_queue s c h in (refl, e, a)
