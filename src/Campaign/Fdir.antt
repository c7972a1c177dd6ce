-- ===== src/Campaign/Fdir.antt =====
-- tools/run_fdir_campaign.py: the ten cases, their scenarios, the report and `main`.
pub mod Scenarios
pub mod Exit
use astra_sim_fsw.Base.{
  ℕ, ◌+◌, ◌-◌, Bool, true, false, not, ◌&&◌, List, [], ◌∷◌, ◌++◌, Option, none, some, Text, codes,
  leb, ◌==◌, decimal, map, filter, count_if, length, join, rstrip_of, is_space, Result, ok, err,
  type_error, ◌>>=◌, if◌then◌else◌,
}
use astra_sim_fsw.Base.Int.{ℤ, pos, int_eq}
use astra_sim_fsw.Base.Json.{object, Value, int, str, arr, obj, Fields, items}
use astra_sim_fsw.Campaign.{
  Captured, nothing, text, bytes, Child, finished, timed_out, Outside, joined_path, relative_to,
  exit_code,
}

pub record FaultCase : Type 0 where
  pub fault : Text
  pub expected_mode : Text

abbrev fault_case : Text → Text → FaultCase
fault_case fault expected_mode = record { fault = fault; expected_mode = expected_mode }

abbrev pub fault_cases : List FaultCase
fault_cases =
    fault_case (codes "SENSOR_TIMEOUT") (codes "SAFE")
    ∷ fault_case (codes "SENSOR_INVALID_DATA") (codes "SAFE")
    ∷ fault_case (codes "PAYLOAD_HEARTBEAT_TIMEOUT") (codes "DEGRADED_PAYLOAD")
    ∷ fault_case (codes "CPU_OVERLOAD") (codes "DEGRADED_PAYLOAD")
    ∷ fault_case (codes "MEMORY_OVERLOAD") (codes "SAFE")
    ∷ fault_case (codes "TELEMETRY_SOCKET_FAILURE") (codes "SAFE")
    ∷ fault_case (codes "COMMAND_BAD_CRC") (codes "NOMINAL")
    ∷ fault_case (codes "COMMAND_UNKNOWN_ID") (codes "NOMINAL")
    ∷ fault_case (codes "COMMAND_TIMEOUT") (codes "SAFE")
    ∷ fault_case (codes "WATCHDOG_DEADLINE_MISS") (codes "SAFE")
    ∷ []

-- `lower` of a text below 128; the names of the faults have no other characters.
unfoldable pub lower : Text → Text
lower name = map (λ c. if leb b'A' c && leb c b'Z' then c + 32 else c) name

unfoldable pub name_of : FaultCase → Text
unfolding lower
name_of case = codes "fdir_" ++ lower case.fault

unfoldable pub accepted : ℕ → Text → Text → Text → Value
accepted sequence command mode fault = obj (
    object (
      (codes "ack_seq", int (pos sequence))
      ∷ (codes "ack_cmd", str command)
      ∷ (codes "ack_status", str (codes "ACCEPTED"))
      ∷ (codes "mode", str mode)
      ∷ (codes "fault", str fault)
      ∷ []))

unfoldable pub scenario_for : FaultCase → ℕ → Fields
unfolding name_of accepted
scenario_for case index = object (
    (codes "name", str (name_of case))
    ∷ (
      codes "description",
      str (codes "Exercise the explicit FDIR disposition for " ++ (case.fault ++ codes ".")),
    )
    ∷ (
      codes "requirements",
      arr (
          items (
            str (codes "FSW-REQ-207")
            ∷ str (codes "FSW-REQ-208")
            ∷ str (codes "FSW-REQ-113")
            ∷ [])),
    )
    ∷ (codes "command_port", int (pos (6100 + index)))
    ∷ (codes "telemetry_port", int (pos (5100 + index)))
    ∷ (codes "loop_count", int (pos 20))
    ∷ (
      codes "steps",
      arr (
          items (
            obj (
              object (
                (codes "name", str (codes "enter nominal"))
                ∷ (codes "command", str (codes "SET_MODE"))
                ∷ (codes "argument", str (codes "NOMINAL"))
                ∷ (codes "expect", accepted 1 (codes "SET_MODE") (codes "NOMINAL") (codes "NONE"))
                ∷ []))
            ∷ obj (
                object (
                  (codes "name", str (codes "inject " ++ case.fault))
                  ∷ (codes "command", str (codes "INJECT_FAULT"))
                  ∷ (codes "argument", str case.fault)
                  ∷ (
                    codes "expect",
                    accepted 2 (codes "INJECT_FAULT") case.expected_mode case.fault,
                  )
                  ∷ []))
            ∷ [])),
    )
    ∷ [])

-- An entry of `results`.
pub record CaseResult : Type 0 where
  pub case : FaultCase
  pub name : Text
  pub passed : Bool
  pub output_text : Text

-- `(error.stdout or "") + "\nERROR: scenario timed out"`: bytes do not add to a text.
unfoldable pub timeout_text : Captured → Result Text
timeout_text nothing = ok (codes "\nERROR: scenario timed out")
timeout_text (text captured) = ok (captured ++ codes "\nERROR: scenario timed out")
timeout_text (bytes []) = ok (codes "\nERROR: scenario timed out")
timeout_text (bytes (b ∷ captured)) = err type_error

-- The result of a case, by what its child did.
unfoldable pub case_result : FaultCase → Child → Result CaseResult
unfolding timeout_text name_of
case_result case (finished code output) = ok (record {
  case = case;
  name = name_of case;
  passed = int_eq code (pos 0);
  output_text = output;
})
case_result case (timed_out captured) = timeout_text captured >>= λ output.
    ok (record { case = case; name = name_of case; passed = false; output_text = output })

-- The body of the loop of `main`.
unfoldable pub run_case : Outside → ℕ → FaultCase → Result CaseResult
run_case outside index case = outside.child index (scenario_for case index) >>= case_result case

-- The loop of `main`, from the index of the first case.
unfoldable pub run_cases : Outside → ℕ → List FaultCase → Result (List CaseResult)
run_cases outside index [] = ok []
run_cases outside index (case ∷ cases) = do
  result ← run_case outside index case
  results ← run_cases outside (1 + index) cases
  ok (result ∷ results)

abbrev pub status_text : Bool → Text
status_text passed = if passed then codes "PASS" else codes "FAIL"

unfoldable pub table_line : CaseResult → Text
table_line r =
    codes "| `"
    ++ (r.case.fault
        ++ (codes "` | `"
            ++ (r.case.expected_mode
                ++ (codes "` | "
                    ++ (status_text r.passed
                        ++ (codes " | `reports/scenario_"
                            ++ (r.name ++ codes "_output.txt` |")))))))

unfoldable pub failure_log : List CaseResult → List Text
failure_log [] = []
failure_log (r ∷ rs) =
    (codes "### " ++ r.case.fault)
    ∷ []
    ∷ codes "```text"
    ∷ rstrip_of is_space r.output_text
    ∷ codes "```"
    ∷ []
    ∷ failure_log rs

unfoldable pub failure_logs : List CaseResult → List Text
unfolding failure_log
failure_logs [] = []
failure_logs (r ∷ rs) = [] ∷ codes "## Failure logs" ∷ [] ∷ failure_log (r ∷ rs)

-- `write_report`: the text of the report.
unfoldable pub write_report : Text → List CaseResult → Text
unfolding table_line failure_logs
write_report build_dir results =
    let passed = count_if (λ r. r.passed) results in
    let failed = length results - passed in
    join (codes "\n") (
      codes "# ASTRA-OS Ten-Case FDIR Campaign"
      ∷ []
      ∷ (codes "Result: " ++ status_text (failed == 0))
      ∷ []
      ∷ (codes "Build directory: `" ++ (build_dir ++ codes "`"))
      ∷ (codes "Cases: `" ++ (decimal (length results) ++ codes "`"))
      ∷ (codes "Passed: `" ++ (decimal passed ++ codes "`"))
      ∷ (codes "Failed: `" ++ (decimal failed ++ codes "`"))
      ∷ []
      ∷ codes
          "The campaign injects each supported fault through the UDP command/telemetry scenario boundary. It verifies the typed acknowledgement, active fault indication, and resulting operational mode. It does not prove coverage of every physical detection mechanism."
      ∷ []
      ∷ codes "| Fault | Expected mode | Result | Scenario report |"
      ∷ codes "|---|---|---|---|"
      ∷ (map table_line results ++ failure_logs (filter (λ r. not r.passed) results)))
    ++ codes "\n"

-- What a run leaves: the report, where it was written, and the exit code.
pub record Outcome : Type 0 where
  pub report : Option Text
  pub result : Result ℤ

-- Behind the writing of the report.
unfoldable pub after_report : Text → Text → Text → List CaseResult → Result (Unit {0}) → Outcome
after_report root output written results (err e) = record { report = none; result = err e }
after_report root output written results (ok _) = record {
  report = some written;
  result =
      relative_to root output >>= λ shown. ok (exit_code (count_if (λ r. not r.passed) results));
}

unfoldable pub conclude : Outside → Text → Text → Text → Result (List CaseResult) → Outcome
unfolding after_report
conclude outside root build_dir output (err e) = record { report = none; result = err e }
conclude outside root build_dir output (ok results) =
    let written = write_report build_dir results in
    after_report root output written results (outside.write output written)

-- `main`
unfoldable pub main : Outside → Text → Text → Text → Outcome
unfolding conclude
main outside root build_dir output =
    conclude outside root build_dir (joined_path root output) (run_cases outside 0 fault_cases)
