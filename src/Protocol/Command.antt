-- ===== src/Protocol/Command.antt =====
-- tools/send_command.py: one command packet from the command line.
pub mod Uplink
pub mod Accepted
use astra_sim_fsw.Base.{
  ℕ, zero, suc, List, [], ◌∷◌, ◌++◌, Option, none, some, Text, codes, text_eq, Result, ok, err,
  ◌>>=◌, Exception, value_error, key_error, if◌then◌else◌, decimal,
}
use astra_sim_fsw.Base.Dict.{Dict, lookup}
use astra_sim_fsw.Base.Int.{ℤ, pos, negsuc, int_text}
use astra_sim_fsw.Protocol.Crc
use astra_sim_fsw.Protocol.Pack.{pack_le, pack_field}

abbrev pub command_magic : ℕ
command_magic = 0x434D4453

abbrev pub command_version : ℕ
command_version = 1

abbrev pub commands : Dict ℕ
commands =
    (codes "NOOP", 0)
    ∷ (codes "SET_MODE", 1)
    ∷ (codes "INJECT_FAULT", 2)
    ∷ (codes "REQUEST_TELEMETRY", 3)
    ∷ (codes "CLEAR_FAULT", 4)
    ∷ []

abbrev pub modes : Dict ℕ
modes =
    (codes "BOOT", 0)
    ∷ (codes "NOMINAL", 1)
    ∷ (codes "DEGRADED_SENSOR", 2)
    ∷ (codes "DEGRADED_PAYLOAD", 3)
    ∷ (codes "SAFE", 4)
    ∷ (codes "RECOVERY", 5)
    ∷ (codes "STANDBY", 6)
    ∷ (codes "TEST", 7)
    ∷ []

abbrev pub faults : Dict ℕ
faults =
    (codes "NONE", 0)
    ∷ (codes "SENSOR_TIMEOUT", 100)
    ∷ (codes "SENSOR_INVALID_DATA", 101)
    ∷ (codes "PAYLOAD_HEARTBEAT_TIMEOUT", 200)
    ∷ (codes "CPU_OVERLOAD", 300)
    ∷ (codes "MEMORY_OVERLOAD", 301)
    ∷ (codes "TELEMETRY_SOCKET_FAILURE", 400)
    ∷ (codes "COMMAND_BAD_CRC", 500)
    ∷ (codes "COMMAND_UNKNOWN_ID", 501)
    ∷ (codes "COMMAND_TIMEOUT", 502)
    ∷ (codes "WATCHDOG_DEADLINE_MISS", 600)
    ∷ []

unfoldable pub crc16_ccitt : List ℕ → ℕ
crc16_ccitt = Crc.crc16_ccitt

-- `table[key]`
unfoldable pub subscript : Text → Dict ℕ → Result ℕ
subscript key table = elim (lookup key table) [ none ↦ err (key_error key) | some v ↦ ok v ]

-- The argument of a command that needs one.
unfoldable pub required : Text → Dict ℕ → Option Text → Result ℕ
unfolding subscript
required message table none = err (value_error message)
required message table (some argument) = subscript argument table

unfoldable pub parse_argument : Text → Option Text → Result ℕ
unfolding required
parse_argument command argument =
    if text_eq command (codes "SET_MODE")
    then required (codes "SET_MODE requires --argument MODE") modes argument
    else if text_eq command (codes "INJECT_FAULT")
    then required (codes "INJECT_FAULT requires --argument FAULT") faults argument
    else ok 0

-- `struct.pack("<IHIQHI", …)`: the fields in order, the first that does not fit raises.
unfoldable pub pack_payload : ℤ → ℤ → ℤ → ℤ → ℤ → ℤ → Result (List ℕ)
pack_payload magic version sequence timestamp_ms command_id argument = do
  a ← pack_field 4 magic
  b ← pack_field 2 version
  c ← pack_field 4 sequence
  d ← pack_field 8 timestamp_ms
  e ← pack_field 2 command_id
  f ← pack_field 4 argument
  ok (a ++ (b ++ (c ++ (d ++ (e ++ f)))))

-- `now_ms` is the reading of the wall clock, used when there is no timestamp.
unfoldable pub resolve_timestamp : ℤ → Option ℤ → ℤ
resolve_timestamp now_ms none = now_ms
resolve_timestamp now_ms (some timestamp_ms) = timestamp_ms

unfoldable pub build_packet : ℤ → ℤ → Text → ℤ → Option ℤ → Result (List ℕ)
unfolding resolve_timestamp crc16_ccitt
build_packet now_ms sequence command argument_value timestamp_ms = do
  command_id ← subscript command commands
  payload ←
      pack_payload (pos command_magic) (pos command_version) sequence
        (resolve_timestamp now_ms timestamp_ms) (pos command_id) argument_value
  crc ← pack_field 2 (pos (crc16_ccitt payload))
  ok (payload ++ crc)

-- The command line after `argparse`.
pub record Arguments : Type 0 where
  pub host : Text
  pub port : ℕ
  pub sequence : ℤ
  pub timestamp_ms : Option ℤ
  pub command : Text
  pub argument : Option Text

-- The datagram that the socket sends, and the line printed afterwards.
pub record Sent : Type 0 where
  pub packet : List ℕ
  pub host : Text
  pub port : ℕ
  pub message : Text

-- `{args.argument or argument_value}`
argument_text : Option Text → ℕ → Text
argument_text none value = decimal value
argument_text (some []) value = decimal value
argument_text (some (c ∷ s)) value = c ∷ s

timestamp_text : Option ℤ → Text
timestamp_text none = codes "now"
timestamp_text (some t) = int_text t

unfoldable pub main : ℤ → Arguments → Result Sent
unfolding argument_text timestamp_text
main now_ms args = do
  argument_value ← parse_argument args.command args.argument
  packet ← build_packet now_ms args.sequence args.command (pos argument_value) args.timestamp_ms
  ok (record {
    packet = packet;
    host = args.host;
    port = args.port;
    message =
        codes "Sent command "
        ++ (args.command
            ++ (codes " argument="
                ++ (argument_text args.argument argument_value
                    ++ (codes " seq="
                        ++ (int_text args.sequence
                            ++ (codes " timestamp_ms="
                                ++ (timestamp_text args.timestamp_ms
                                    ++ (codes " to "
                                        ++ (args.host ++ (codes ":" ++ decimal args.port))))))))));
  })
