-- ===== src/Requirements/Main.antt =====
-- tools/check_requirements.py: the text of the report and `main`.
use astra_sim_fsw.Base.{
  ℕ, List, [], ◌∷◌, ◌++◌, map, Option, none, some, Text, codes, join, decimal, length, Result, ok,
  err, value_error, os_error, ◌>>=◌, if◌then◌else◌,
}
use astra_sim_fsw.Base.Dict.{Dict}
use astra_sim_fsw.Base.Json.{Value}
use astra_sim_fsw.Requirements.{
  Requirement, MatrixEntry, parse_requirements_doc, parse_verification_matrix,
}
use astra_sim_fsw.Requirements.Baseline.{
  Digests, read_traceability_payload, reviewed_baseline_problems,
}
use astra_sim_fsw.Requirements.Report.{
  ScenarioEvidence, Disposition, pass, manual, planned, historical, fail, Counts, StatusRow,
  Outcome, write_report, exit_code,
}
use astra_sim_fsw.Requirements.Read.{
  ScenarioFile, parse_registered_ctests, evidence_report_passed, load_scenarios,
}

unfoldable pub disposition_text : Disposition → Text
disposition_text pass = codes "PASS"
disposition_text manual = codes "MANUAL"
disposition_text planned = codes "PLANNED"
disposition_text historical = codes "HISTORICAL"
disposition_text fail = codes "FAIL"

unfoldable pub summary_lines : Counts → ℕ → ℕ → List Text
summary_lines counts tests problems =
    (codes "- PASS: " ++ decimal counts.pass_count)
    ∷ (codes "- MANUAL: " ++ decimal counts.manual_count)
    ∷ (codes "- PLANNED: " ++ decimal counts.planned_count)
    ∷ (codes "- HISTORICAL: " ++ decimal counts.historical_count)
    ∷ (codes "- FAIL: " ++ decimal counts.fail_count)
    ∷ (codes "- REGISTERED_CTESTS: " ++ decimal tests)
    ∷ (codes "- TRACEABILITY_PROBLEMS: " ++ decimal problems)
    ∷ []

unfoldable pub status_line : StatusRow → Text
unfolding disposition_text
status_line row =
    codes "| "
    ++ (join (codes " | ") (
          row.req_id
          ∷ disposition_text row.result
          ∷ row.doc_status
          ∷ row.component
          ∷ row.evidence
          ∷ [])
        ++ codes " |")

requirements_cell : List Text → Text
requirements_cell [] = codes "NONE"
requirements_cell requirements = join (codes ", ") requirements

unfoldable pub scenario_line : ScenarioEvidence → Text
unfolding requirements_cell
scenario_line s =
    codes "| "
    ++ (join (codes " | ") (
          s.name
          ∷ (if s.passed then codes "PASS" else codes "FAIL")
          ∷ requirements_cell s.requirements
          ∷ (codes "`" ++ (s.report_path ++ codes "`"))
          ∷ [])
        ++ codes " |")

problem_lines : List Text → List Text
problem_lines [] = []
problem_lines problems =
    [] ∷ codes "## Traceability Problems" ∷ [] ∷ map (λ p. codes "- " ++ p) problems

-- The lines of the report in `write_report`.
unfoldable pub report_lines : Outcome → List ScenarioEvidence → List Text → List Text
unfolding summary_lines status_line scenario_line problem_lines
report_lines outcome scenarios registered_tests =
    codes "# Requirement Check Report"
    ∷ []
    ∷ codes "## Summary"
    ∷ []
    ∷ (summary_lines outcome.counts (length registered_tests) (length outcome.problems)
        ++ ([]
            ∷ (codes "A MANUAL result means the requirement has a matrix allocation but was "
                ++ (codes "not automatically dispositioned by scenario or committed report logic. "
                    ++ codes "It is not equivalent to PASS."))
            ∷ []
            ∷ codes "## Requirement Results"
            ∷ []
            ∷ codes
                "| Requirement | Result | Doc Status | Component | Verification Case or Evidence |"
            ∷ codes "|---|---|---|---|---|"
            ∷ (map status_line outcome.rows
                ++ ([]
                    ∷ codes "## Scenario Evidence"
                    ∷ []
                    ∷ codes "| Scenario | Result | Requirements | Report |"
                    ∷ codes "|---|---|---|---|"
                    ∷ (map scenario_line scenarios
                        ++ ([]
                            ∷ codes "## Reverse CTest Allocation"
                            ∷ []
                            ∷ (codes "Registered CTests: `"
                                ++ (decimal (length registered_tests) ++ codes "`"))
                            ∷ []
                            ∷ codes
                                "Every registered CTest name must appear in at least one verification-matrix case list."
                            ∷ problem_lines outcome.problems))))))

-- What stands outside: `repr`, the digests, the text of a file by its path below the repository,
-- and for each input its path and, where it exists, what reading it gives; then what making the
-- directory of the report and writing the report gives, and the path of the report below the
-- repository.
pub record Outside : Type 0 where
  pub digests : Digests
  pub files : Text → Option Text
  pub requirements_path : Text
  pub requirements : Option (Result (List Text))
  pub matrix_path : Text
  pub matrix : Option (Result (List Text × List (Dict Text)))
  pub scenarios_path : Text
  pub scenarios : Option (List ScenarioFile)
  pub cmake_path : Text
  pub cmake : Option (Result Text)
  pub baseline_path : Text
  pub baseline : Option (Result Value)
  pub written : List Text → Result (Unit {0})
  pub output_shown : Result Text

unfoldable pub read_requirements : Outside → Result (Dict Requirement)
read_requirements outside = elim outside.requirements [
  | none ↦
      err
        (value_error (codes "requirements document does not exist: " ++ outside.requirements_path))
  | some read ↦ read >>= λ lines. parse_requirements_doc outside.requirements_path lines
]

unfoldable pub read_matrix : Outside → Result (Dict MatrixEntry)
read_matrix outside = elim outside.matrix [
  | none ↦ err (value_error (codes "verification matrix does not exist: " ++ outside.matrix_path))
  | some read ↦ read >>= λ table. parse_verification_matrix outside.matrix_path table.0 table.1
]

abbrev pub no_baseline : List Text
no_baseline =
    (codes "Traceability baseline is missing; run "
      ++ codes "python3 tools/update_traceability_baseline.py after review")
    ∷ []

-- `reviewed_baseline_problems`
unfoldable pub read_drift : Outside → Dict Requirement → Result (List Text)
read_drift outside requirements = elim outside.baseline [
  | none ↦ ok no_baseline
  | some read ↦ read_traceability_payload outside.baseline_path read >>= λ payload.
      ok (reviewed_baseline_problems outside.digests requirements payload)
]

-- The inputs that `main` read.
pub record Inputs : Type 0 where
  pub requirements : Dict Requirement
  pub matrix : Dict MatrixEntry
  pub scenarios : List ScenarioEvidence
  pub registered_tests : List Text
  pub drift : List Text

unfoldable pub read_inputs : Outside → Result Inputs
unfolding read_requirements read_matrix read_drift
read_inputs outside = do
  requirements ← read_requirements outside
  matrix ← read_matrix outside
  scenarios ←
      load_scenarios outside.digests.repr outside.files outside.scenarios_path outside.scenarios
  registered_tests ← parse_registered_ctests outside.cmake_path outside.cmake
  drift ← read_drift outside requirements
  ok (record {
    requirements = requirements;
    matrix = matrix;
    scenarios = scenarios;
    registered_tests = registered_tests;
    drift = drift;
  })

abbrev pub outcome_of : Outside → Inputs → Outcome
outcome_of outside inputs =
    write_report (evidence_report_passed outside.files) inputs.requirements inputs.matrix
      inputs.scenarios inputs.registered_tests inputs.drift

-- The `try` of `main`: the outcome behind the writing of its report.
unfoldable pub attempt : Outside → Result Outcome
unfolding read_inputs report_lines
attempt outside = read_inputs outside >>= λ inputs.
    outside.written
      (report_lines (outcome_of outside inputs) inputs.scenarios inputs.registered_tests)
    >>= λ done. ok (outcome_of outside inputs)

unfoldable pub finish : Result Text → Result Outcome → Result ℕ
finish output_shown (err (os_error m)) = ok 1
finish output_shown (err (value_error m)) = ok 1
finish output_shown (err e) = err e
finish output_shown (ok outcome) = output_shown >>= λ path. ok (exit_code outcome)

unfoldable pub main : Outside → Result ℕ
unfolding attempt finish
main outside = finish outside.output_shown (attempt outside)
