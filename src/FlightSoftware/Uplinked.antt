-- ===== src/FlightSoftware/Uplinked.antt =====
-- src/fsw/FlightSoftware.cpp: commands of the ground station (src/sim/GroundStation.cpp) in the cycle
-- that receives them, through the parser, the command manager and the data store.
use mathlib.Core.Option
use mathlib.Core.List.{append_assoc, append-nil}
use cubesat_fsw_gnc.Prelude.{ℕ, List, [], ◌∷◌, ◌++◌, ◌≡◌, refl, sym, ap, ◌∙◌}
use cubesat_fsw_gnc.Prelude.Dict.{lookup, insert}
use cubesat_fsw_gnc.Double.{Double, Stored}
use cubesat_fsw_gnc.Core.DataStore.{DataStore, GainsPayload, gains_payload, subscribe}
use cubesat_fsw_gnc.Core.CommandManager.{CommandManager, enqueue_command, execute, drain, update}
use cubesat_fsw_gnc.Gnc.AttitudeController.{AttitudeController, set_gains}
use cubesat_fsw_gnc.Telemetry.Command.{
  Command, slew_to_nadir_command, set_pid_gains_command, slew_to_target_command,
}
use cubesat_fsw_gnc.Telemetry.GroundStation.{GroundStation}
use cubesat_fsw_gnc.Telemetry.Uplink.{create, parse-create}
use cubesat_fsw_gnc.FlightSoftware.State.{FlightSoftware, Subscribers, subscribe_guidance}
use cubesat_fsw_gnc.FlightSoftware.Step.{enqueue_all, process_commands}

module _ {D : Type 0} ⦃d : Double D⦄ where
  abbrev tune :
      GainsPayload D → Subscribers D (AttitudeController D) → Subscribers D (AttitudeController D)
  tune p w = record w {
    attitude_controller =
        Option.map (λ c. set_gains c p.kp p.ki p.kd p.is_nominal) w.attitude_controller;
  }

  -- A store with the subscription of the attitude controller, and then the two of the constructor.
  unfoldable pub wired : DataStore D (Subscribers D (AttitudeController D))
  unfolding subscribe_guidance subscribe
  wired =
      subscribe_guidance
        (subscribe (record { data_map = []; subscribers = [] }) "gnc/att_gains" tune)

  -- What these commands ask for.
  unfoldable pub guided :
      List (Command D) → Subscribers D (AttitudeController D) → Subscribers D (AttitudeController D)
  guided [] w = w
  guided (slew_to_nadir_command ∷ cmds) w = guided cmds (record w { guidance_mode = "NADIR" })
  guided (set_pid_gains_command kp ki kd is_nominal ∷ cmds) w =
      guided cmds (tune (record { kp = kp; ki = ki; kd = kd; is_nominal = is_nominal }) w)
  guided (slew_to_target_command q ∷ cmds) w =
      guided cmds (record w { guidance_mode = "TARGET"; target_q = q })

  execute-guided :
      (cmd : Command D) (s : DataStore D (Subscribers D (AttitudeController D)))
      (w : Subscribers D (AttitudeController D))
      → s.subscribers ≡ wired.subscribers
      → let (s', w') = execute cmd s w in
        (s'.subscribers ≡ wired.subscribers) × (w' ≡ guided (cmd ∷ []) w)
  unfolding execute lookup insert guided wired
  execute-guided slew_to_nadir_command s w h = rw h (refl, refl)
  execute-guided (set_pid_gains_command kp ki kd is_nominal) s w h = rw h (refl, refl)
  execute-guided (slew_to_target_command q) s w h = rw h (refl, refl)

  guided-cons :
      (cmd : Command D) (cmds : List (Command D)) (w : Subscribers D (AttitudeController D))
      → guided cmds (guided (cmd ∷ []) w) ≡ guided (cmd ∷ cmds) w
  unfolding guided
  guided-cons slew_to_nadir_command cmds w = refl
  guided-cons (set_pid_gains_command kp ki kd n) cmds w = refl
  guided-cons (slew_to_target_command q) cmds w = refl

  drain-guided :
      (cmds : List (Command D)) (s : DataStore D (Subscribers D (AttitudeController D)))
      (w : Subscribers D (AttitudeController D))
      → s.subscribers ≡ wired.subscribers
      → (drain cmds s w).1 ≡ guided cmds w
  unfolding drain guided
  drain-guided [] s w h = refl
  drain-guided (cmd ∷ cmds) s w h =
      let (h', e) = execute-guided cmd s w h in
      let s' = (execute cmd s w).0 in
      let w' = (execute cmd s w).1 in
      drain-guided cmds s' w' h' ∙ ap (guided cmds) e ∙ guided-cons cmd cmds w

module _ {D : Type 0} ⦃d : Double D⦄ ⦃stored : Stored D⦄ where
  -- The packets of a station for these commands.
  unfoldable pub create_all : GroundStation D → List (Command D) → List (List ℕ)
  create_all g [] = []
  create_all g (cmd ∷ cmds) = let (g', packet) = create g cmd in packet ∷ create_all g' cmds

  enqueue_all-create :
      (g : GroundStation D) (cmds : List (Command D)) (m : CommandManager D)
      → (enqueue_all m (create_all g cmds)).command_queue ≡ m.command_queue ++ cmds
  unfolding enqueue_all create_all enqueue_command
  enqueue_all-create g [] m = sym (append-nil m.command_queue)
  enqueue_all-create g (cmd ∷ cmds) m =
      let g' = (create g cmd).0 in
      ap (λ o. (enqueue_all (enqueue_command m o) (create_all g' cmds)).command_queue)
        (parse-create g cmd)
      ∙ enqueue_all-create g' cmds (record { command_queue = m.command_queue ++ cmd ∷ [] })
      ∙ append_assoc m.command_queue (cmd ∷ []) cmds

module _ {D E M : Type 0} ⦃d : Double D⦄ ⦃stored : Stored D⦄ where
  -- With the attitude controller and the constructor as the only subscribers, packets that a
  -- station makes of commands act in the cycle that receives them, after the commands that were
  -- waiting: the queue is empty, and the guidance mode, the target and the gains of the controller
  -- are what all these commands ask for in order. The eight bytes of a double determine it.
  pub process_commands-create :
      (f : FlightSoftware D E (AttitudeController D) M) (g : GroundStation D)
      (cmds : List (Command D))
      → f.data_store.subscribers ≡ wired.subscribers
      → let f' = process_commands f (create_all g cmds) in
        (f'.command_manager.command_queue ≡ [])
        × (f'.subscribers ≡ guided (f.command_manager.command_queue ++ cmds) f.subscribers)
  unfolding process_commands update
  process_commands-create f g cmds h = (
    refl,
    ap (λ q. (drain q f.data_store f.subscribers).1) (enqueue_all-create g cmds f.command_manager)
        ∙ drain-guided (f.command_manager.command_queue ++ cmds) f.data_store f.subscribers h,
  )
