-- ===== src/Protocol/Telemetry.antt =====
-- tools/telemetry_receiver.py: the decoder of health telemetry and the loop around it.
pub mod Downlink
use astra_sim_fsw.Base.{
  ℕ, ◌-◌, List, [], ◌∷◌, ◌++◌, Option, none, some, Text, codes, decimal, hex, Result, ok, err,
  value_error, Exception, ◌==◌, length, take, drop, if◌then◌else◌,
}
use astra_sim_fsw.Base.Dict.{lookup_number}
use astra_sim_fsw.Protocol.Crc
use astra_sim_fsw.Protocol.Pack.{unpack_le}

abbrev pub telemetry_magic : ℕ
telemetry_magic = 0x41535452

abbrev pub telemetry_version : ℕ
telemetry_version = 1

abbrev pub telemetry_packet_type_health : ℕ
telemetry_packet_type_health = 1

abbrev pub telemetry_packet_size_bytes : ℕ
telemetry_packet_size_bytes = 43

abbrev pub Names : Type 0
Names = List (ℕ × Text)

abbrev pub modes : Names
modes =
    (0, codes "BOOT")
    ∷ (1, codes "NOMINAL")
    ∷ (2, codes "DEGRADED_SENSOR")
    ∷ (3, codes "DEGRADED_PAYLOAD")
    ∷ (4, codes "SAFE")
    ∷ (5, codes "RECOVERY")
    ∷ (6, codes "STANDBY")
    ∷ (7, codes "TEST")
    ∷ []

abbrev pub faults : Names
faults =
    (0, codes "NONE")
    ∷ (100, codes "SENSOR_TIMEOUT")
    ∷ (101, codes "SENSOR_INVALID_DATA")
    ∷ (200, codes "PAYLOAD_HEARTBEAT_TIMEOUT")
    ∷ (300, codes "CPU_OVERLOAD")
    ∷ (301, codes "MEMORY_OVERLOAD")
    ∷ (400, codes "TELEMETRY_SOCKET_FAILURE")
    ∷ (500, codes "COMMAND_BAD_CRC")
    ∷ (501, codes "COMMAND_UNKNOWN_ID")
    ∷ (502, codes "COMMAND_TIMEOUT")
    ∷ (600, codes "WATCHDOG_DEADLINE_MISS")
    ∷ []

abbrev pub commands : Names
commands =
    (0, codes "NOOP")
    ∷ (1, codes "SET_MODE")
    ∷ (2, codes "INJECT_FAULT")
    ∷ (3, codes "REQUEST_TELEMETRY")
    ∷ (4, codes "CLEAR_FAULT")
    ∷ []

abbrev pub command_statuses : Names
command_statuses =
    (0, codes "ACCEPTED")
    ∷ (1, codes "REJECTED_BAD_ARGUMENT")
    ∷ (2, codes "REJECTED_INVALID_TRANSITION")
    ∷ (3, codes "REJECTED_UNKNOWN_COMMAND")
    ∷ (4, codes "REJECTED_DUPLICATE_SEQUENCE")
    ∷ (5, codes "REJECTED_REPLAYED_SEQUENCE")
    ∷ (6, codes "REJECTED_STALE_TIMESTAMP")
    ∷ (7, codes "REJECTED_FUTURE_TIMESTAMP")
    ∷ (8, codes "REJECTED_GUARD_CONFIGURATION")
    ∷ (9, codes "REJECTED_UNAUTHORIZED")
    ∷ (10, codes "REJECTED_RECOVERY_LIMIT")
    ∷ []

unfoldable pub crc16_ccitt : List ℕ → ℕ
crc16_ccitt = Crc.crc16_ccitt

-- `f"UNKNOWN({n})"`, and `table.get(n, f"UNKNOWN({n})")`
unfoldable pub unknown : ℕ → Text
unknown n = codes "UNKNOWN(" ++ (decimal n ++ codes ")")

unfoldable pub name_of : ℕ → Names → Text
name_of n table = elim (lookup_number n table) [ none ↦ unknown n | some name ↦ name ]

unfoldable pub command_name : ℕ → Text
command_name command_id = if command_id == 0 then codes "NONE" else name_of command_id commands

-- The dictionary that `decode_packet` returns. A float field is its bit pattern.
pub record Packet : Type 0 where
  pub sequence_number : ℕ
  pub timestamp_ms : ℕ
  pub mode : Text
  pub last_fault : Text
  pub cpu_load_percent : ℕ
  pub memory_load_percent : ℕ
  pub heartbeat_count : ℕ
  pub last_command_sequence_number : ℕ
  pub last_command_id : Text
  pub last_command_status : Text

-- The messages of the `ValueError`s.
abbrev pub wrong_size : ℕ → Exception
wrong_size n = value_error (codes "wrong packet size: " ++ (decimal n ++ codes " bytes"))

abbrev pub bad_crc : ℕ → ℕ → Exception
bad_crc expected actual =
    value_error
      (codes "bad CRC: expected 0x" ++ (hex 4 expected ++ (codes ", got 0x" ++ hex 4 actual)))

abbrev pub bad_magic : ℕ → Exception
bad_magic magic = value_error (codes "bad magic: 0x" ++ hex 8 magic)

abbrev pub bad_version : ℕ → Exception
bad_version version = value_error (codes "unsupported version: " ++ decimal version)

abbrev pub bad_type : ℕ → Exception
bad_type packet_type = value_error (codes "unsupported packet type: " ++ decimal packet_type)

-- `struct.unpack("<IHHIQBHffIIBBH", data)`, one field at its offset.
unfoldable pub field : ℕ → ℕ → List ℕ → ℕ
field width offset bytes = unpack_le width (drop offset bytes)

unfoldable pub fields : List ℕ → Packet
fields bytes = record {
  sequence_number = field 4 8 bytes;
  timestamp_ms = field 8 12 bytes;
  mode = name_of (field 1 20 bytes) modes;
  last_fault = name_of (field 2 21 bytes) faults;
  cpu_load_percent = field 4 23 bytes;
  memory_load_percent = field 4 27 bytes;
  heartbeat_count = field 4 31 bytes;
  last_command_sequence_number = field 4 35 bytes;
  last_command_id = command_name (field 1 39 bytes);
  last_command_status = name_of (field 1 40 bytes) command_statuses;
}

unfoldable pub decode_packet : List ℕ → Result Packet
unfolding crc16_ccitt
decode_packet bytes =
    let expected_crc = crc16_ccitt (take (length bytes - 2) bytes) in
    let actual_crc = field 2 (telemetry_packet_size_bytes - 2) bytes in
    let magic = field 4 0 bytes in
    let version = field 2 4 bytes in
    let packet_type = field 2 6 bytes in
    if length bytes == telemetry_packet_size_bytes
    then (if actual_crc == expected_crc
        then (if magic == telemetry_magic
            then (if version == telemetry_version
                then (if packet_type == telemetry_packet_type_health
                    then ok (fields bytes)
                    else err (bad_type packet_type))
                else err (bad_version version))
            else err (bad_magic magic))
        else err (bad_crc expected_crc actual_crc))
    else err (wrong_size (length bytes))

-- The line that `main` prints for one datagram. `address` is the printed sender and `two_places`
-- the `:.2f` format of a float given by its bits.
unfoldable pub report : (ℕ → Text) → Text → Result Packet → Text
report two_places address (err (value_error message)) =
    address ++ (codes ": rejected packet: " ++ message)
report two_places address (err _) = []
report two_places address (ok packet) =
    address
    ++ (codes ": seq="
        ++ (decimal packet.sequence_number
            ++ (codes " t_ms="
                ++ (decimal packet.timestamp_ms
                    ++ (codes " mode="
                        ++ (packet.mode
                            ++ (codes " fault="
                                ++ (packet.last_fault
                                    ++ (codes " cpu="
                                        ++ (two_places packet.cpu_load_percent
                                            ++ (codes "% mem="
                                                ++ (two_places packet.memory_load_percent
                                                    ++ (codes "% hb="
                                                        ++ (decimal packet.heartbeat_count
                                                            ++ (codes " ack_seq="
                                                            ++ (decimal
                                                            packet.last_command_sequence_number
                                                            ++ (codes " ack_cmd="
                                                            ++ (packet.last_command_id
                                                            ++ (codes " ack_status="
                                                            ++ packet.last_command_status)))))))))))))))))))

-- The loop of `main` over the datagrams received.
unfoldable pub main : (ℕ → Text) → List (Text × List ℕ) → List Text
unfolding report decode_packet
main two_places [] = []
main two_places ((address, bytes) ∷ datagrams) =
    report two_places address (decode_packet bytes) ∷ main two_places datagrams
