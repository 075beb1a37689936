-- ===== src/Telemetry/Ccsds.antt =====
-- src/fsw/telemetry/CCSDS.hpp and CommandProtocol.hpp. A field is the number in its `uint16_t`; the
-- results of the masks fit, and only `setLength` can wrap.
use Prim.Native.Nat.{bit_and, bit_or}
use cubesat_fsw_gnc.Prelude.{ℕ, ◌+◌, ◌*◌, ◌/◌, ◌%◌, ◌^◌, Bool, List, [], ◌∷◌, if◌then◌else◌}

pub record CcsdsHeader : Type 0 where
  pub packet_id : ℕ
  pub sequence_ctrl : ℕ
  pub packet_length : ℕ

unfoldable pub set_version : CcsdsHeader → ℕ → CcsdsHeader
set_version h version = record h {
  packet_id = bit_or (bit_and h.packet_id 0x1fff) (bit_and version 0x07 * 2 ^ 13);
}

unfoldable pub set_type : CcsdsHeader → ℕ → CcsdsHeader
set_type h type = record h {
  packet_id = bit_or (bit_and h.packet_id 0xefff) (bit_and type 0x01 * 2 ^ 12);
}

unfoldable pub set_secondary_header_flag : CcsdsHeader → Bool → CcsdsHeader
set_secondary_header_flag h flag = record h {
  packet_id = bit_or (bit_and h.packet_id 0xf7ff) (if flag then 0x0800 else 0);
}

unfoldable pub set_apid : CcsdsHeader → ℕ → CcsdsHeader
set_apid h apid = record h { packet_id = bit_or (bit_and h.packet_id 0xf800) (bit_and apid 0x07ff) }

unfoldable pub set_sequence_flags : CcsdsHeader → ℕ → CcsdsHeader
set_sequence_flags h flags = record h {
  sequence_ctrl = bit_or (bit_and h.sequence_ctrl 0x3fff) (bit_and flags 0x03 * 2 ^ 14);
}

unfoldable pub set_sequence_count : CcsdsHeader → ℕ → CcsdsHeader
set_sequence_count h count = record h {
  sequence_ctrl = bit_or (bit_and h.sequence_ctrl 0xc000) (bit_and count 0x3fff);
}

unfoldable pub set_length : CcsdsHeader → ℕ → CcsdsHeader
set_length h length = record h { packet_length = (length + 0xffff) % 2 ^ 16 }

-- `((x & 0xFF00) >> 8) | ((x & 0x00FF) << 8)`
unfoldable pub swap_bytes : ℕ → ℕ
swap_bytes x = bit_or (bit_and x 0xff00 / 2 ^ 8) (bit_and x 0x00ff * 2 ^ 8)

unfoldable pub to_network_order : CcsdsHeader → CcsdsHeader
unfolding swap_bytes
to_network_order h = record {
  packet_id = swap_bytes h.packet_id;
  sequence_ctrl = swap_bytes h.sequence_ctrl;
  packet_length = swap_bytes h.packet_length;
}

-- The six bytes of a header in the memory of the little-endian host.
unfoldable pub header_bytes : CcsdsHeader → List ℕ
header_bytes h =
    h.packet_id % 256
    ∷ h.packet_id / 256
    ∷ h.sequence_ctrl % 256
    ∷ h.sequence_ctrl / 256
    ∷ h.packet_length % 256
    ∷ h.packet_length / 256
    ∷ []

abbrev pub header_size : ℕ
header_size = 6

-- CommandSecondaryHeader, one byte
abbrev pub secondary_header_size : ℕ
secondary_header_size = 1

pub data Apid : Type 0 where
  attitude orbit health : Apid

abbrev pub apid_value : Apid → ℕ
apid_value attitude = 100
apid_value orbit = 101
apid_value health = 102

pub data CommandApid : Type 0 where
  system gnc test : CommandApid

abbrev pub command_apid_value : CommandApid → ℕ
command_apid_value system = 200
command_apid_value gnc = 201
command_apid_value test = 202

pub data GncFunctionCode : Type 0 where
  slew_to_nadir slew_to_sun set_gains point_target : GncFunctionCode

abbrev pub function_value : GncFunctionCode → ℕ
function_value slew_to_nadir = 0x01
function_value slew_to_sun = 0x02
function_value set_gains = 0x03
function_value point_target = 0x04

-- How the receivers read a header: `(b[0] << 8) | b[1]`, its APID and its type bit.
unfoldable pub read_packet_id : ℕ → ℕ → ℕ
read_packet_id b0 b1 = bit_or (b0 * 2 ^ 8) b1

abbrev pub apid_of : ℕ → ℕ
apid_of packet_id = bit_and packet_id 0x07ff

abbrev pub type_of : ℕ → ℕ
type_of packet_id = bit_and (packet_id / 2 ^ 12) 0x01
