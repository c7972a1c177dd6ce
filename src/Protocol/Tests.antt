-- ===== src/Protocol/Tests.antt =====
-- Runs of the protocol tools, and the theorems at concrete packets.
use astra_sim_fsw.Base.{
  ℕ, ◌<◌, List, [], ◌∷◌, ◌≡◌, ◌↔◌, refl, arith, true, none, some, Text, codes, Result, ok, err,
  struct_error, value_error, text_eq, decimal,
}
use astra_sim_fsw.Base.Dict.{lookup}
use astra_sim_fsw.Base.Int.{pos, negsuc, int_text}
use astra_sim_fsw.Protocol.Crc.{crc16_ccitt}
use astra_sim_fsw.Protocol.Crc.Detects.{crc16_ccitt-lt}
use astra_sim_fsw.Protocol.Pack.{pack_le, pack_field}
use astra_sim_fsw.Protocol.Flight.{
  CommandPacket, TelemetryPacket, deserialize_command_packet, serialize_telemetry_packet,
  is_valid_command_id,
}
use astra_sim_fsw.Protocol.Command
use astra_sim_fsw.Protocol.Command.{
  Arguments, Sent, build_packet, subscript, pack_payload, parse_argument,
}
use astra_sim_fsw.Protocol.Command.Accepted.{Reads, main-Reads}
use astra_sim_fsw.Protocol.Telemetry
use astra_sim_fsw.Protocol.Telemetry.Downlink.{
  IsValid, decode_packet_iff, decode_packet-changed, displayed, decode_packet-serialize,
}
use astra_sim_fsw.Protocol.Dashboard
use astra_sim_fsw.Protocol.Dashboard.Agrees.{Agreement, decode_packet-Agreement}
use astra_sim_fsw.Protocol.Corpus.{Keywords, Seed, command_packet, seed_cases}
use astra_sim_fsw.Protocol.Corpus.Verdicts.{command_packet_verdict}

abbrev health : TelemetryPacket
health = record {
  sequence_number = 7;
  timestamp_ms = 123456;
  mode = 6;
  last_fault = 300;
  cpu_load_percent = 0x42280000;
  memory_load_percent = 0x41a00000;
  heartbeat_count = 9;
  last_command_sequence_number = 3;
  last_command_id = 1;
  last_command_status = 0;
}

-- The packet behind its first byte, 0x52.
abbrev health_tail : List ℕ
health_tail =
    84 ∷ 83 ∷ 65 ∷ 1 ∷ 0 ∷ 1 ∷ 0 ∷ 7 ∷ 0 ∷ 0 ∷ 0 ∷ 64 ∷ 226 ∷ 1 ∷ 0 ∷ 0 ∷ 0 ∷ 0 ∷ 0 ∷ 6 ∷ 44 ∷ 1 ∷ 0
    ∷ 0 ∷ 40 ∷ 66 ∷ 0 ∷ 0 ∷ 160 ∷ 65 ∷ 9 ∷ 0 ∷ 0 ∷ 0 ∷ 3 ∷ 0 ∷ 0 ∷ 0 ∷ 1 ∷ 0 ∷ 37 ∷ 234 ∷ []

health_bytes : serialize_telemetry_packet health ≡ 82 ∷ health_tail
unfolding serialize_telemetry_packet crc16_ccitt
health_bytes = refl

-- The check value of CRC-16/CCITT-FALSE: the checksum of "123456789".
crc_check : crc16_ccitt (codes "123456789") ≡ 0x29b1
unfolding crc16_ccitt codes
crc_check = refl

abbrev set_mode : Arguments
set_mode = record {
  host = codes "127.0.0.1";
  port = 6000;
  sequence = pos 1;
  timestamp_ms = none;
  command = codes "SET_MODE";
  argument = some (codes "SAFE");
}

abbrev set_mode_sent : Sent
set_mode_sent = record {
  packet =
      83 ∷ 68 ∷ 77 ∷ 67 ∷ 1 ∷ 0 ∷ 1 ∷ 0 ∷ 0 ∷ 0 ∷ 232 ∷ 3 ∷ 0 ∷ 0 ∷ 0 ∷ 0 ∷ 0 ∷ 0 ∷ 1 ∷ 0 ∷ 4 ∷ 0
      ∷ 0 ∷ 0 ∷ 90 ∷ 25 ∷ [];
  host = codes "127.0.0.1";
  port = 6000;
  message = codes "Sent command SET_MODE argument=SAFE seq=1 timestamp_ms=now to 127.0.0.1:6000";
}

set_mode_run : Command.main (pos 1000) set_mode ≡ ok set_mode_sent
unfolding Command.main parse_argument build_packet subscript lookup pack_payload pack_field pack_le
    crc16_ccitt codes text_eq decimal int_text
set_mode_run = refl

-- A sequence number that does not fit the field.
negative_sequence :
    Command.main (pos 1000) (record set_mode { sequence = negsuc 0 }) ≡ err struct_error
unfolding Command.main parse_argument build_packet subscript lookup pack_payload pack_field pack_le
    codes text_eq
negative_sequence = refl

missing_argument :
    parse_argument (codes "SET_MODE") none
    ≡ err (value_error (codes "SET_MODE requires --argument MODE"))
unfolding parse_argument text_eq codes
missing_argument = refl

crc16_ccitt-lt_example : crc16_ccitt (1 ∷ 2 ∷ []) < 0x10000
crc16_ccitt-lt_example = crc16_ccitt-lt (1 ∷ 2 ∷ []) (omega arith)

main-Reads_example :
    (p : CommandPacket) × (deserialize_command_packet set_mode_sent.packet ≡ some p)
    × Reads (pos 1000) set_mode p
main-Reads_example = main-Reads (pos 1000) set_mode set_mode_sent set_mode_run

decode_packet_iff_example :
    ((p : Telemetry.Packet) × (Telemetry.decode_packet (82 ∷ []) ≡ ok p)) ↔ IsValid (82 ∷ [])
decode_packet_iff_example = decode_packet_iff (82 ∷ [])

health_decodes : Telemetry.decode_packet (82 ∷ health_tail) ≡ ok (displayed health)
health_decodes = rw health_bytes at (decode_packet-serialize health (omega arith))

decode_packet-changed_example :
    (expected : ℕ) × (actual : ℕ) × (Telemetry.decode_packet (83 ∷ health_tail)
      ≡ err (Telemetry.bad_crc expected actual))
decode_packet-changed_example =
    decode_packet-changed [] health_tail 82 83 health_decodes (omega arith) (omega arith)
      (omega arith) (omega arith) (omega arith)

decode_packet-serialize_example :
    Telemetry.decode_packet (serialize_telemetry_packet health) ≡ ok (displayed health)
decode_packet-serialize_example = decode_packet-serialize health (omega arith)

decode_packet-Agreement_example :
    Agreement
      (82 ∷ health_tail)
      (Dashboard.decode_packet (82 ∷ health_tail))
      (Telemetry.decode_packet (82 ∷ health_tail))
decode_packet-Agreement_example = decode_packet-Agreement (82 ∷ health_tail)

abbrev wrong_version : Keywords
wrong_version = record {
  sequence = 7;
  timestamp_ms = 7000;
  command_id = 0;
  argument = 0;
  magic = 0x434D4453;
  version = 2;
  valid_crc = true;
}

command_packet_verdict_example :
    (bytes : List ℕ) × (command_packet wrong_version ≡ ok bytes)
    × (deserialize_command_packet bytes ≡ none)
unfolding is_valid_command_id
command_packet_verdict_example = command_packet_verdict wrong_version (omega arith)

-- The names of the seeds that the flight software accepts.
accepted_names : List Seed → List Text
accepted_names [] = []
accepted_names (s ∷ seeds) = elim (deserialize_command_packet s.bytes) [
  | none ↦ accepted_names seeds
  | some _ ↦ s.name ∷ accepted_names seeds
]

abbrev names_of : Result (List Seed) → List Text
names_of (ok seeds) = accepted_names seeds
names_of (err _) = []

seeds_accepted :
    names_of seed_cases
    ≡ codes "valid_noop"
      ∷ codes "valid_set_mode"
      ∷ codes "valid_inject_fault"
      ∷ codes "valid_request_telemetry"
      ∷ codes "valid_clear_fault"
      ∷ []
unfolding accepted_names seed_cases pack_payload pack_field pack_le crc16_ccitt
    deserialize_command_packet codes
seeds_accepted = refl
