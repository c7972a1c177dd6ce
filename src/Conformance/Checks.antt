-- ===== src/Conformance/Checks.antt =====
-- tools/check_protocol_conformance.py: the list of comparisons and `main`.
use astra_sim_fsw.Base.{
  ℕ, Bool, not, List, [], ◌∷◌, ◌++◌, Option, none, some, Text, codes, all, length, count_if, Result,
  ok, err, value_error, key_error, type_error, os_error, runtime_error, ◌>>=◌, if◌then◌else◌,
}
use astra_sim_fsw.Base.Dict.{Dict}
use astra_sim_fsw.Base.Json.{Value, obj, get}
use astra_sim_fsw.Conformance.{
  Headers, parse_cpp_constant, parse_cpp_enum, invert_integer_map, Actual, table, number, equals,
}
use astra_sim_fsw.Protocol.Command
use astra_sim_fsw.Protocol.Telemetry

-- `manifest[key]`
unfoldable pub subscript : Text → Value → Result Value
subscript key (obj d) = elim (get key d) [ none ↦ err (key_error key) | some v ↦ ok v ]
subscript key _ = err type_error

-- The arguments of a call of `compare`.
pub record Check : Type 0 where
  pub label : Text
  pub expected : Result Value
  pub actual : Result Actual

abbrev pub check : Text → Result Value → Result Actual → Check
check label expected actual = record { label = label; expected = expected; actual = actual }

abbrev pub mode_header : Text
mode_header = codes "fsw/include/astra/mode_manager.hpp"

abbrev pub command_header : Text
command_header = codes "fsw/include/astra/command_packet.hpp"

abbrev pub processor_header : Text
processor_header = codes "fsw/include/astra/command_processor.hpp"

abbrev pub telemetry_header : Text
telemetry_header = codes "fsw/include/astra/telemetry_packet.hpp"

abbrev pub table_of : Result (Dict ℕ) → Result Actual
table_of r = r >>= λ t. ok (table t)

abbrev pub number_of : Result ℕ → Result Actual
number_of r = r >>= λ n. ok (number n)

unfoldable pub enum_checks : Headers → Value → List Check
unfolding subscript
enum_checks headers manifest =
    check (codes "C++ Mode enum") (subscript (codes "modes") manifest)
      (table_of (parse_cpp_enum headers mode_header (codes "Mode")))
    ∷ check (codes "C++ FaultCode enum") (subscript (codes "faults") manifest)
        (table_of (parse_cpp_enum headers mode_header (codes "FaultCode")))
    ∷ check (codes "C++ CommandId enum") (subscript (codes "commands") manifest)
        (table_of (parse_cpp_enum headers command_header (codes "CommandId")))
    ∷ check (codes "C++ CommandStatus enum") (subscript (codes "command_statuses") manifest)
        (table_of (parse_cpp_enum headers processor_header (codes "CommandStatus")))
    ∷ []

unfoldable pub constant_checks : Headers → Value → List Check
unfolding subscript
constant_checks headers manifest =
    check (codes "C++ command magic")
      (subscript (codes "command_packet") manifest >>= subscript (codes "magic"))
      (number_of (parse_cpp_constant headers command_header (codes "COMMAND_MAGIC")))
    ∷ check (codes "C++ command version")
        (subscript (codes "command_packet") manifest >>= subscript (codes "version"))
        (number_of (parse_cpp_constant headers command_header (codes "COMMAND_VERSION")))
    ∷ check (codes "C++ command size")
        (subscript (codes "command_packet") manifest >>= subscript (codes "size_bytes"))
        (number_of (parse_cpp_constant headers command_header (codes "COMMAND_PACKET_SIZE_BYTES")))
    ∷ check (codes "C++ telemetry magic")
        (subscript (codes "telemetry_packet") manifest >>= subscript (codes "magic"))
        (number_of (parse_cpp_constant headers telemetry_header (codes "TELEMETRY_MAGIC")))
    ∷ check (codes "C++ telemetry version")
        (subscript (codes "telemetry_packet") manifest >>= subscript (codes "version"))
        (number_of (parse_cpp_constant headers telemetry_header (codes "TELEMETRY_VERSION")))
    ∷ check (codes "C++ telemetry type")
        (subscript (codes "telemetry_packet") manifest >>= subscript (codes "packet_type_health"))
        (number_of
          (parse_cpp_constant headers telemetry_header (codes "TELEMETRY_PACKET_TYPE_HEALTH")))
    ∷ check (codes "C++ telemetry size")
        (subscript (codes "telemetry_packet") manifest >>= subscript (codes "size_bytes"))
        (number_of
          (parse_cpp_constant headers telemetry_header (codes "TELEMETRY_PACKET_SIZE_BYTES")))
    ∷ []

unfoldable pub sender_checks : Value → List Check
unfolding subscript
sender_checks manifest =
    check (codes "Python sender commands") (subscript (codes "commands") manifest)
      (ok (table Command.commands))
    ∷ check (codes "Python sender modes") (subscript (codes "modes") manifest)
        (ok (table Command.modes))
    ∷ check (codes "Python sender faults") (subscript (codes "faults") manifest)
        (ok (table Command.faults))
    ∷ check (codes "Python sender command magic")
        (subscript (codes "command_packet") manifest >>= subscript (codes "magic"))
        (ok (number Command.command_magic))
    ∷ check (codes "Python sender command version")
        (subscript (codes "command_packet") manifest >>= subscript (codes "version"))
        (ok (number Command.command_version))
    ∷ []

unfoldable pub receiver_checks : Value → List Check
unfolding subscript
receiver_checks manifest =
    check (codes "Python receiver commands") (subscript (codes "commands") manifest)
      (ok (table (invert_integer_map Telemetry.commands)))
    ∷ check (codes "Python receiver modes") (subscript (codes "modes") manifest)
        (ok (table (invert_integer_map Telemetry.modes)))
    ∷ check (codes "Python receiver faults") (subscript (codes "faults") manifest)
        (ok (table (invert_integer_map Telemetry.faults)))
    ∷ check (codes "Python receiver statuses") (subscript (codes "command_statuses") manifest)
        (ok (table (invert_integer_map Telemetry.command_statuses)))
    ∷ check (codes "Python telemetry magic")
        (subscript (codes "telemetry_packet") manifest >>= subscript (codes "magic"))
        (ok (number Telemetry.telemetry_magic))
    ∷ check (codes "Python telemetry version")
        (subscript (codes "telemetry_packet") manifest >>= subscript (codes "version"))
        (ok (number Telemetry.telemetry_version))
    ∷ check (codes "Python telemetry type")
        (subscript (codes "telemetry_packet") manifest >>= subscript (codes "packet_type_health"))
        (ok (number Telemetry.telemetry_packet_type_health))
    ∷ check (codes "Python telemetry size")
        (subscript (codes "telemetry_packet") manifest >>= subscript (codes "size_bytes"))
        (ok (number Telemetry.telemetry_packet_size_bytes))
    ∷ []

-- The calls of `compare` in their order.
unfoldable pub checks : Headers → Value → List Check
unfolding enum_checks constant_checks sender_checks receiver_checks
checks headers manifest =
    enum_checks headers manifest
    ++ (constant_checks headers manifest ++ (sender_checks manifest ++ receiver_checks manifest))

-- An entry of `results`.
pub record CheckResult : Type 0 where
  pub label : Text
  pub passed : Bool
  pub expected : Value
  pub actual : Actual

abbrev pub result_of : Check → Value → Actual → CheckResult
result_of c expected actual = record {
  label = c.label;
  passed = equals expected actual;
  expected = expected;
  actual = actual;
}

unfoldable pub compare_one : Check → Result CheckResult
compare_one c = do expected ← c.expected; actual ← c.actual; ok (result_of c expected actual)

-- The calls one after the other; the first that raises ends them.
unfoldable pub compare_all : List Check → Result (List CheckResult)
unfolding compare_one
compare_all [] = ok []
compare_all (c ∷ cs) = do result ← compare_one c; results ← compare_all cs; ok (result ∷ results)

unfoldable pub all_passed : List CheckResult → Bool
all_passed results = all (λ r. r.passed) results

-- The numbers of the report.
pub record Report : Type 0 where
  pub manifest : Text
  pub passed : Bool
  pub check_count : ℕ
  pub failed_count : ℕ
  pub results : List CheckResult

unfoldable pub report_of : Text → List CheckResult → Report
unfolding all_passed
report_of manifest results = record {
  manifest = manifest;
  passed = all_passed results;
  check_count = length results;
  failed_count = count_if (λ r. not r.passed) results;
  results = results;
}

-- Behind the comparisons: the report, and the exit code. `manifest_shown` and `report_shown` are
-- the two paths below the repository.
unfoldable pub finish :
    Result Text → Result Text → Result (List CheckResult) → Option Report × Result ℕ
unfolding report_of
finish manifest_shown report_shown (err (os_error m)) = (none, ok 1)
finish manifest_shown report_shown (err (value_error m)) = (none, ok 1)
finish manifest_shown report_shown (err (key_error m)) = (none, ok 1)
finish manifest_shown report_shown (err (runtime_error m)) = (none, ok 1)
finish manifest_shown report_shown (err type_error) = (none, ok 1)
finish manifest_shown report_shown (err e) = (none, err e)
finish (err e) report_shown (ok results) = (none, err e)
finish (ok manifest) report_shown (ok results) = (
  some (report_of manifest results),
  report_shown >>= λ path. ok (if all_passed results then 0 else 1),
)

-- `main`, from what reading and parsing the manifest gives; the loaded modules are those of
-- send_command.py and telemetry_receiver.py.
unfoldable pub main : Headers → Result Text → Result Text → Result Value → Option Report × Result ℕ
unfolding checks compare_all finish
main headers manifest_shown report_shown read =
    finish manifest_shown report_shown (read >>= λ manifest. compare_all (checks headers manifest))
