-- ===== src/Protocol/Flight.antt =====
-- The flight software's ends of the protocol: `deserialize_command_packet` of
-- fsw/src/command_packet.cpp and `serialize_telemetry_packet` of fsw/src/telemetry_packet.cpp.
-- The bytes of a field do not overlap, so the `|` of the source is written as a sum.
use astra_sim_fsw.Base.{
  ℕ, Bool, ◌||◌, List, ◌++◌, Option, none, some, ◌==◌, length, take, drop, if◌then◌else◌,
}
use astra_sim_fsw.Protocol.Crc.{crc16_ccitt}
use astra_sim_fsw.Protocol.Pack.{pack_le, unpack_le}

pub record CommandPacket : Type 0 where
  pub sequence_number : ℕ
  pub timestamp_ms : ℕ
  pub command_id : ℕ
  pub argument : ℕ

abbrev pub command_packet_size_bytes : ℕ
command_packet_size_bytes = 26

unfoldable pub is_valid_command_id : ℕ → Bool
is_valid_command_id value = value == 0 || value == 1 || value == 2 || value == 3 || value == 4

-- `read_u16`, `read_u32` and `read_u64` at an offset.
unfoldable pub read : ℕ → ℕ → List ℕ → ℕ
unfolding unpack_le
read width offset bytes = unpack_le width (drop offset bytes)

read_fields : List ℕ → CommandPacket
unfolding read
read_fields bytes = record {
  sequence_number = read 4 6 bytes;
  timestamp_ms = read 8 10 bytes;
  command_id = read 2 18 bytes;
  argument = read 4 20 bytes;
}

-- `none` for a return of `false`.
unfoldable pub deserialize_command_packet : List ℕ → Option CommandPacket
unfolding read read_fields is_valid_command_id
deserialize_command_packet bytes =
    if length bytes == command_packet_size_bytes
    then (if read 2 24 bytes == crc16_ccitt (take 24 bytes)
        then (if read 4 0 bytes == 0x434D4453
            then (if read 2 4 bytes == 1
                then (if is_valid_command_id (read 2 18 bytes)
                    then some (read_fields bytes)
                    else none)
                else none)
            else none)
        else none)
    else none

-- The floats are their bit patterns; the enums are their numbers.
pub record TelemetryPacket : Type 0 where
  pub sequence_number : ℕ
  pub timestamp_ms : ℕ
  pub mode : ℕ
  pub last_fault : ℕ
  pub cpu_load_percent : ℕ
  pub memory_load_percent : ℕ
  pub heartbeat_count : ℕ
  pub last_command_sequence_number : ℕ
  pub last_command_id : ℕ
  pub last_command_status : ℕ

unfoldable pub telemetry_body : TelemetryPacket → List ℕ
unfolding pack_le
telemetry_body p =
    pack_le 4 0x41535452
    ++ (pack_le 2 1
        ++ (pack_le 2 1
            ++ (pack_le 4 p.sequence_number
                ++ (pack_le 8 p.timestamp_ms
                    ++ (pack_le 1 p.mode
                        ++ (pack_le 2 p.last_fault
                            ++ (pack_le 4 p.cpu_load_percent
                                ++ (pack_le 4 p.memory_load_percent
                                    ++ (pack_le 4 p.heartbeat_count
                                        ++ (pack_le 4 p.last_command_sequence_number
                                            ++ (pack_le 1 p.last_command_id
                                                ++ pack_le 1 p.last_command_status)))))))))))

unfoldable pub serialize_telemetry_packet : TelemetryPacket → List ℕ
unfolding telemetry_body
serialize_telemetry_packet p =
    let bytes = telemetry_body p in bytes ++ pack_le 2 (crc16_ccitt bytes)
