-- ===== src/Conformance/Tests.antt =====
-- tools/check_protocol_conformance.py: concrete runs.
use astra_sim_fsw.Base.{
  ℕ, [], ◌∷◌, ◌++◌, none, some, Text, codes, ◌≡◌, refl, text_eq, split, strip, is_space, Result,
  value_error, ok, err,
}
use astra_sim_fsw.Base.Int.{pos}
use astra_sim_fsw.Base.Dict.{Dict, insert, lookup, has_key}
use astra_sim_fsw.Base.Json.{int, obj, Fields, end, field, get, equals_int}
use astra_sim_fsw.Conformance.{
  Headers, enum_entry, number_value, parse_cpp_constant, parse_cpp_enum, invert_integer_map, equals,
}
use astra_sim_fsw.Conformance.Checks.{mode_header, main}
use astra_sim_fsw.Conformance.Agreed.{main-agreed}
use astra_sim_fsw.Conformance.Tables.{SameTable}
use astra_sim_fsw.Protocol.Command
use astra_sim_fsw.Protocol.Telemetry

hex_constant : number_value (codes "0x434D4453") ≡ some (ok 1129137235)
unfolding number_value codes
hex_constant = refl

leading_zero :
    number_value (codes "08")
    ≡ some (err (value_error (codes "invalid literal for int() with base 0: '08'")))
unfolding number_value codes
leading_zero = refl

entry_spaces : enum_entry (codes "SAFE\t= 0x04") ≡ some (codes "SAFE", ok 4)
unfolding enum_entry is_space codes
entry_spaces = refl

entry_without_number : enum_entry (codes "SAFE") ≡ none
unfolding enum_entry is_space codes
entry_without_number = refl

abbrev bodies : Dict Text
bodies =
    (
      codes "Mode",
      codes "BOOT = 0, NOMINAL = 1, DEGRADED_SENSOR = 2, "
          ++ (codes "DEGRADED_PAYLOAD = 3, SAFE = 4, RECOVERY = 5, "
              ++ (codes "STANDBY = 6, TEST = 7")),
    )
    ∷ (
      codes "FaultCode",
      codes "NONE = 0, SENSOR_TIMEOUT = 100, SENSOR_INVALID_DATA = 101, "
          ++ (codes "PAYLOAD_HEARTBEAT_TIMEOUT = 200, CPU_OVERLOAD = 300, MEMORY_OVERLOAD = 301, "
              ++ (codes
                    "TELEMETRY_SOCKET_FAILURE = 400, COMMAND_BAD_CRC = 500, COMMAND_UNKNOWN_ID = 501, "
                  ++ (codes "COMMAND_TIMEOUT = 502, WATCHDOG_DEADLINE_MISS = 600"))),
    )
    ∷ (
      codes "CommandId",
      codes "NOOP = 0, SET_MODE = 1, INJECT_FAULT = 2, "
          ++ (codes "REQUEST_TELEMETRY = 3, CLEAR_FAULT = 4"),
    )
    ∷ (
      codes "CommandStatus",
      codes "ACCEPTED = 0, REJECTED_BAD_ARGUMENT = 1, REJECTED_INVALID_TRANSITION = 2, "
          ++ (codes
                "REJECTED_UNKNOWN_COMMAND = 3, REJECTED_DUPLICATE_SEQUENCE = 4, REJECTED_REPLAYED_SEQUENCE = 5, "
              ++ (codes
                    "REJECTED_STALE_TIMESTAMP = 6, REJECTED_FUTURE_TIMESTAMP = 7, REJECTED_GUARD_CONFIGURATION = 8, "
                  ++ (codes "REJECTED_UNAUTHORIZED = 9, REJECTED_RECOVERY_LIMIT = 10"))),
    )
    ∷ []

abbrev constants : Dict Text
constants =
    (codes "COMMAND_MAGIC", codes "0x434D4453")
    ∷ (codes "COMMAND_VERSION", codes "1")
    ∷ (codes "COMMAND_PACKET_SIZE_BYTES", codes "26")
    ∷ (codes "TELEMETRY_MAGIC", codes "0x41535452")
    ∷ (codes "TELEMETRY_VERSION", codes "1")
    ∷ (codes "TELEMETRY_PACKET_TYPE_HEALTH", codes "1")
    ∷ (codes "TELEMETRY_PACKET_SIZE_BYTES", codes "43")
    ∷ []

abbrev headers : Headers
headers = record {
  constant = λ path name. ok (lookup name constants);
  enum_body = λ path name. ok (lookup name bodies);
  repr = λ s. s;
}

abbrev fields : Fields
fields =
    field (codes "command_packet")
      (obj (
        field (codes "magic") (int (pos 1129137235)) (
          field (codes "version") (int (pos 1)) (field (codes "size_bytes") (int (pos 26)) (end)))))
      (field (codes "telemetry_packet")
        (obj (
          field (codes "magic") (int (pos 1095980114)) (
            field (codes "version") (int (pos 1)) (
              field (codes "packet_type_health") (int (pos 1))
                (field (codes "size_bytes") (int (pos 43)) (end))))))
        (field (codes "commands")
          (obj (
            field (codes "NOOP") (int (pos 0)) (
              field (codes "SET_MODE") (int (pos 1)) (
                field (codes "INJECT_FAULT") (int (pos 2)) (
                  field (codes "REQUEST_TELEMETRY") (int (pos 3))
                    (field (codes "CLEAR_FAULT") (int (pos 4)) (end)))))))
          (field (codes "command_statuses")
            (obj (
              field (codes "ACCEPTED") (int (pos 0)) (
                field (codes "REJECTED_BAD_ARGUMENT") (int (pos 1)) (
                  field (codes "REJECTED_INVALID_TRANSITION") (int (pos 2)) (
                    field (codes "REJECTED_UNKNOWN_COMMAND") (int (pos 3)) (
                      field (codes "REJECTED_DUPLICATE_SEQUENCE") (int (pos 4)) (
                        field (codes "REJECTED_REPLAYED_SEQUENCE") (int (pos 5)) (
                          field (codes "REJECTED_STALE_TIMESTAMP") (int (pos 6)) (
                            field (codes "REJECTED_FUTURE_TIMESTAMP") (int (pos 7)) (
                              field (codes "REJECTED_GUARD_CONFIGURATION") (int (pos 8)) (
                                field (codes "REJECTED_UNAUTHORIZED") (int (pos 9)) (
                                  field (codes "REJECTED_RECOVERY_LIMIT") (int (pos 10))
                                    (end)))))))))))))
            (field (codes "modes")
              (obj (
                field (codes "BOOT") (int (pos 0)) (
                  field (codes "NOMINAL") (int (pos 1)) (
                    field (codes "DEGRADED_SENSOR") (int (pos 2)) (
                      field (codes "DEGRADED_PAYLOAD") (int (pos 3)) (
                        field (codes "SAFE") (int (pos 4)) (
                          field (codes "RECOVERY") (int (pos 5)) (
                            field (codes "STANDBY") (int (pos 6))
                              (field (codes "TEST") (int (pos 7)) (end))))))))))
              (field (codes "faults")
                (obj (
                  field (codes "NONE") (int (pos 0)) (
                    field (codes "SENSOR_TIMEOUT") (int (pos 100)) (
                      field (codes "SENSOR_INVALID_DATA") (int (pos 101)) (
                        field (codes "PAYLOAD_HEARTBEAT_TIMEOUT") (int (pos 200)) (
                          field (codes "CPU_OVERLOAD") (int (pos 300)) (
                            field (codes "MEMORY_OVERLOAD") (int (pos 301)) (
                              field (codes "TELEMETRY_SOCKET_FAILURE") (int (pos 400)) (
                                field (codes "COMMAND_BAD_CRC") (int (pos 500)) (
                                  field (codes "COMMAND_UNKNOWN_ID") (int (pos 501)) (
                                    field (codes "COMMAND_TIMEOUT") (int (pos 502)) (
                                      field (codes "WATCHDOG_DEADLINE_MISS") (int (pos 600))
                                        (end)))))))))))))
                (end))))))

abbrev manifest_path : Result Text
manifest_path = ok (codes "config/protocol_manifest.json")

abbrev report_path : Result Text
report_path = ok (codes "reports/latest/protocol_conformance.json")

modes_parsed : parse_cpp_enum headers mode_header (codes "Mode") ≡ ok Command.modes
unfolding parse_cpp_enum lookup text_eq codes split strip is_space insert
modes_parsed = refl

passes : (main headers manifest_path report_path (ok (obj fields))).1 ≡ ok 0
unfolding main get text_eq codes parse_cpp_enum lookup split strip is_space parse_cpp_constant
    equals insert equals_int has_key invert_integer_map
passes = refl

main-agreed_example :
    (m : Dict ℕ) × (parse_cpp_enum headers mode_header (codes "Mode") ≡ ok m)
    × SameTable m Command.modes
    × SameTable m (invert_integer_map Telemetry.modes)
main-agreed_example = (main-agreed headers manifest_path report_path (ok (obj fields)) passes).0

-- A manifest without the key "modes": the error is printed and the exit code is 1.
no_modes : main headers manifest_path report_path (ok (obj end)) ≡ (none, ok 1)
unfolding main get codes
no_modes = refl

-- The report is outside the repository: the ValueError is raised behind the `try`.
report_elsewhere :
    (main headers manifest_path
      (err (value_error (codes "not in the subpath")))
      (ok (obj fields))).1
    ≡ err (value_error (codes "not in the subpath"))
unfolding main get text_eq codes parse_cpp_enum lookup split strip is_space parse_cpp_constant
    equals insert equals_int has_key invert_integer_map
report_elsewhere = refl
