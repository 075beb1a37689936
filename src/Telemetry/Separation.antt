-- ===== src/Telemetry/Separation.antt =====
-- Commands and telemetry do not mix: the type bit of the header keeps them apart
-- (src/fsw/core/CommandParser.cpp and src/sim/GroundStation.cpp).
use cubesat_fsw_gnc.Prelude.{
  ℕ, ◌+◌, ◌≤◌, ◌≡◌, refl, inl, inr, ltb, Bool-cases, List, none, some, arith, length, length-drop,
  drop, get_or,
}
use mathlib.Core.Option.{some-injective}
use cubesat_fsw_gnc.Double.{Double, Stored}
use cubesat_fsw_gnc.Telemetry.Ccsds.{type_of, apid_of, read_packet_id}
use cubesat_fsw_gnc.Telemetry.Bytes.{append_double-wire}
use cubesat_fsw_gnc.Telemetry.Command.{
  Command, slew_to_nadir_command, set_pid_gains_command, slew_to_target_command, parse, parse_gnc,
  parse_set_gains, parse_point_target, CommandParameterReader, remaining_size,
}
use cubesat_fsw_gnc.Telemetry.GroundStation.{
  GroundStation, receive, create_slew_to_nadir_command, create_slew_to_target_command,
  create_set_pid_gains_command,
}
use cubesat_fsw_gnc.Telemetry.Uplink.{create}

module _ {D : Type 0} ⦃d : Double D⦄ ⦃s : Stored D⦄ where
  -- The station takes none of its own commands for telemetry.
  pub receive-create : (g h : GroundStation D) (c : Command D) → receive h (create g c).1 ≡ h
  unfolding create receive create_slew_to_nadir_command create_slew_to_target_command
      create_set_pid_gains_command
  receive-create g h slew_to_nadir_command = refl
  receive-create g h (set_pid_gains_command kp ki kd b) =
      rw (append_double-wire _ kp, append_double-wire _ ki, append_double-wire _ kd)
  receive-create g h (slew_to_target_command q) = rw (
    append_double-wire _ q.x,
    append_double-wire _ q.y,
    append_double-wire _ q.z,
    append_double-wire _ q.w,
  )

  -- The bytes of a whole packet.
  abbrev pub size_of : Command D → ℕ
  size_of slew_to_nadir_command = 7
  size_of (set_pid_gains_command kp ki kd b) = 32
  size_of (slew_to_target_command q) = 39

  not_some : {c : Command D} → ¬ (none ≡ some c)
  not_some e = cc

  gains_size :
      (r : CommandParameterReader) (c : Command D)
      → parse_set_gains r ≡ some c
      → size_of c ≤ 7 + length r.content
  unfolding parse_set_gains
  gains_size r c e = elim (Bool-cases (ltb (remaining_size r) 25)) [
    | inl h ↦ absurd (not_some (rw h at e))
    | inr h ↦ rw (← some-injective _ _ (rw h at e)) (ground (arith, h))
  ]

  target_size :
      (r : CommandParameterReader) (c : Command D)
      → parse_point_target r ≡ some c
      → size_of c ≤ 7 + length r.content
  unfolding parse_point_target
  target_size r c e = elim (Bool-cases (ltb (remaining_size r) 32)) [
    | inl h ↦ absurd (not_some (rw h at e))
    | inr h ↦ rw (← some-injective _ _ (rw h at e)) (ground (arith, h))
  ]

  gnc_size :
      (code : ℕ) (r : CommandParameterReader) (c : Command D)
      → parse_gnc code r ≡ some c
      → size_of c ≤ 7 + length r.content
  unfolding parse_gnc
  gnc_size code r c e = ground (arith, gains_size r c, target_size r c)

  -- What the parser accepts is long enough for its headers, marked as a command, and addressed to
  -- the GNC application; and a command with numbers carries all their bytes.
  pub parse_sound :
      (raw : List ℕ) (c : Command D)
      → parse raw ≡ some c
      → (size_of c ≤ length raw)
        × (type_of (read_packet_id (get_or raw 0 0) (get_or raw 1 0)) ≡ 1)
        × (apid_of (read_packet_id (get_or raw 0 0) (get_or raw 1 0)) ≡ 201)
  unfolding parse
  parse_sound raw c e = ground (
    arith,
    gnc_size (get_or raw 6 0) (record { content = drop 7 raw; offset = 0 }) c,
    length-drop 7 raw,
  )
