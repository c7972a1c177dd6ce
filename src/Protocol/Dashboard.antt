-- ===== src/Protocol/Dashboard.antt =====
-- tools/telemetry_dashboard.py: a second decoder of health telemetry, with a screen instead of a
-- line. Its table of modes lacks STANDBY and TEST, and it shows the command status as a number.
pub mod Agrees
use astra_sim_fsw.Base.{
  ℕ, ◌-◌, List, [], ◌∷◌, ◌++◌, Text, codes, decimal, Result, ok, err, value_error, ◌==◌, length,
  take, drop, if◌then◌else◌,
}
use astra_sim_fsw.Protocol.Crc
use astra_sim_fsw.Protocol.Telemetry.{
  Names, name_of, field, wrong_size, bad_crc, bad_magic, bad_version, bad_type,
}

abbrev pub telemetry_magic : ℕ
telemetry_magic = 0x41535452

abbrev pub telemetry_version : ℕ
telemetry_version = 1

abbrev pub telemetry_packet_type_health : ℕ
telemetry_packet_type_health = 1

abbrev pub telemetry_packet_size_bytes : ℕ
telemetry_packet_size_bytes = 43

abbrev pub modes : Names
modes =
    (0, codes "BOOT")
    ∷ (1, codes "NOMINAL")
    ∷ (2, codes "DEGRADED_SENSOR")
    ∷ (3, codes "DEGRADED_PAYLOAD")
    ∷ (4, codes "SAFE")
    ∷ (5, codes "RECOVERY")
    ∷ []

abbrev pub faults : Names
faults =
    (0, codes "NONE")
    ∷ (100, codes "SENSOR_TIMEOUT")
    ∷ (101, codes "SENSOR_INVALID_DATA")
    ∷ (200, codes "PAYLOAD_HEARTBEAT_TIMEOUT")
    ∷ (300, codes "CPU_OVERLOAD")
    ∷ (301, codes "MEMORY_OVERLOAD")
    ∷ (400, codes "TELEMETRY_SOCKET_FAILURE")
    ∷ (500, codes "COMMAND_BAD_CRC")
    ∷ (501, codes "COMMAND_UNKNOWN_ID")
    ∷ (502, codes "COMMAND_TIMEOUT")
    ∷ (600, codes "WATCHDOG_DEADLINE_MISS")
    ∷ []

abbrev pub commands : Names
commands =
    (0, codes "NOOP")
    ∷ (1, codes "SET_MODE")
    ∷ (2, codes "INJECT_FAULT")
    ∷ (3, codes "REQUEST_TELEMETRY")
    ∷ (4, codes "CLEAR_FAULT")
    ∷ []

unfoldable pub crc16_ccitt : List ℕ → ℕ
crc16_ccitt = Crc.crc16_ccitt

unfoldable pub command_name : ℕ → Text
command_name command_id = if command_id == 0 then codes "NONE" else name_of command_id commands

pub record Packet : Type 0 where
  pub sequence_number : ℕ
  pub timestamp_ms : ℕ
  pub mode : Text
  pub last_fault : Text
  pub cpu_load_percent : ℕ
  pub memory_load_percent : ℕ
  pub heartbeat_count : ℕ
  pub last_command_sequence_number : ℕ
  pub last_command_id : Text
  pub last_command_status : ℕ

unfoldable pub fields : List ℕ → Packet
fields bytes = record {
  sequence_number = field 4 8 bytes;
  timestamp_ms = field 8 12 bytes;
  mode = name_of (field 1 20 bytes) modes;
  last_fault = name_of (field 2 21 bytes) faults;
  cpu_load_percent = field 4 23 bytes;
  memory_load_percent = field 4 27 bytes;
  heartbeat_count = field 4 31 bytes;
  last_command_sequence_number = field 4 35 bytes;
  last_command_id = command_name (field 1 39 bytes);
  last_command_status = field 1 40 bytes;
}

unfoldable pub decode_packet : List ℕ → Result Packet
unfolding crc16_ccitt
decode_packet bytes =
    let expected_crc = crc16_ccitt (take (length bytes - 2) bytes) in
    let actual_crc = field 2 (telemetry_packet_size_bytes - 2) bytes in
    let magic = field 4 0 bytes in
    let version = field 2 4 bytes in
    let packet_type = field 2 6 bytes in
    if length bytes == telemetry_packet_size_bytes
    then (if actual_crc == expected_crc
        then (if magic == telemetry_magic
            then (if version == telemetry_version
                then (if packet_type == telemetry_packet_type_health
                    then ok (fields bytes)
                    else err (bad_type packet_type))
                else err (bad_version version))
            else err (bad_magic magic))
        else err (bad_crc expected_crc actual_crc))
    else err (wrong_size (length bytes))

-- What `main` prints for one datagram: the lines, after clearing the screen where it decodes.
unfoldable pub screen : (ℕ → Text) → Text → Text → ℕ → Result Packet → List Text
screen two_places address host port (err (value_error message)) =
    (address ++ (codes ": rejected packet: " ++ message)) ∷ []
screen two_places address host port (err _) = []
screen two_places address host port (ok packet) =
    codes "\u{1b}[2J\u{1b}[HAstraSim-FSW Live Dashboard"
    ∷ codes "================================"
    ∷ (codes "Source: " ++ (host ++ (codes ":" ++ decimal port)))
    ∷ (codes "Seq:    " ++ decimal packet.sequence_number)
    ∷ (codes "Mode:   " ++ packet.mode)
    ∷ (codes "Fault:  " ++ packet.last_fault)
    ∷ (codes "CPU:    " ++ (two_places packet.cpu_load_percent ++ codes "%"))
    ∷ (codes "Mem:    " ++ (two_places packet.memory_load_percent ++ codes "%"))
    ∷ (codes "HB:     " ++ decimal packet.heartbeat_count)
    ∷ codes "--------------------------------"
    ∷ (codes "Ack seq:    " ++ decimal packet.last_command_sequence_number)
    ∷ (codes "Ack command:" ++ packet.last_command_id)
    ∷ (codes "Ack status: " ++ decimal packet.last_command_status)
    ∷ []
