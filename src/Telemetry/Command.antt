-- ===== src/Telemetry/Command.antt =====
-- src/fsw/telemetry/CommandParameter.hpp and src/fsw/core/CommandParser.cpp: from the bytes of a
-- packet to a command of src/fsw/core/commands. Logging is left out.
use mathlib.Core.List.{reverse}
use cubesat_fsw_gnc.Prelude.{
  ℕ, ◌+◌, ◌-◌, Bool, false, not, List, Option, none, some, if◌then◌else◌, ltb, ◌==◌, length, get_or,
  take, drop,
}
use cubesat_fsw_gnc.Double.{Double, Stored, lit}
use cubesat_fsw_gnc.Eigen.{Quaternion}
use cubesat_fsw_gnc.Telemetry.Ccsds.{
  header_size, secondary_header_size, read_packet_id, apid_of, type_of, command_apid_value, gnc,
  function_value, slew_to_nadir, set_gains, point_target,
}

pub record CommandParameterReader : Type 0 where
  pub content : List ℕ
  pub offset : ℕ

abbrev pub remaining_size : CommandParameterReader → ℕ
remaining_size r = length r.content - r.offset

pub data Command (D : Type 0) : Type 0 where
  slew_to_nadir_command : Command D
  set_pid_gains_command : D → D → D → Bool → Command D
  slew_to_target_command : Quaternion D → Command D

unfoldable pub read_bool : CommandParameterReader → Bool × CommandParameterReader
read_bool r =
    if ltb (length r.content) (r.offset + 1)
    then (false, r)
    else (not (get_or r.content r.offset 0 == 0), record r { offset = r.offset + 1 })

module _ {D : Type 0} ⦃d : Double D⦄ ⦃s : Stored D⦄ where
  -- `read<double>`: past the end it gives 0.0 and stays.
  unfoldable pub read : CommandParameterReader → D × CommandParameterReader
  read r = if ltb (length r.content) (r.offset + 8) then (lit 0 0, r) else (
    s.of_bytes (reverse (take 8 (drop r.offset r.content))),
    record r { offset = r.offset + 8 },
  )

  unfoldable pub parse_set_gains : CommandParameterReader → Option (Command D)
  unfolding read read_bool
  parse_set_gains r =
      if ltb (remaining_size r) 25
      then none
      else (let (kp, r1) = read r in
          let (ki, r2) = read r1 in
          let (kd, r3) = read r2 in
          let (is_nominal, r4) = read_bool r3 in some (set_pid_gains_command kp ki kd is_nominal))

  unfoldable pub parse_point_target : CommandParameterReader → Option (Command D)
  unfolding read
  parse_point_target r =
      if ltb (remaining_size r) 32
      then none
      else (let (qx, r1) = read r in
          let (qy, r2) = read r1 in
          let (qz, r3) = read r2 in
          let (qw, r4) = read r3 in
          some (slew_to_target_command (record { w = qw; x = qx; y = qy; z = qz })))

  -- The branches on the function code of a GNC packet.
  unfoldable pub parse_gnc : ℕ → CommandParameterReader → Option (Command D)
  parse_gnc function_code r =
      if function_code == function_value slew_to_nadir
      then some slew_to_nadir_command
      else (if function_code == function_value set_gains
          then parse_set_gains r
          else (if function_code == function_value point_target
              then parse_point_target r
              else none))

  -- `none` is the null pointer.
  unfoldable pub parse : List ℕ → Option (Command D)
  parse raw =
      let packet_id = read_packet_id (get_or raw 0 0) (get_or raw 1 0) in
      let reader : CommandParameterReader = record {
        content = drop (header_size + secondary_header_size) raw;
        offset = 0;
      } in
      if ltb (length raw) header_size
      then none
      else (if not (type_of packet_id == 1)
          then none
          else (if ltb (length raw) (header_size + secondary_header_size)
              then none
              else (if apid_of packet_id == command_apid_value gnc
                  then parse_gnc (get_or raw header_size 0) reader
                  else none)))
