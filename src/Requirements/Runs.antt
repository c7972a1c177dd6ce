-- ===== src/Requirements/Runs.antt =====
-- tools/check_requirements.py: concrete runs of the readers and of `main`.
use astra_sim_fsw.Base.{
  [], ◌∷◌, ◌≡◌, refl, some, none, Text, codes, text_eq, starts_with, contains_text, strip, strip_of,
  lstrip_of, rstrip_of, is_space, is_digit, split, join, decimal, ok, err, value_error, text_leb,
  map, zero,
}
use astra_sim_fsw.Base.Dict.{Dict, lookup, insert, has_key, keys}
use astra_sim_fsw.Base.Sort.{sorted, insert_sorted}
use astra_sim_fsw.Base.Json.{str, arr, obj, cons, nil, object, get, str_of, equals_text}
use astra_sim_fsw.Requirements.{
  is_requirement_id, is_bar, columns, add_requirement, add_row, add_line, add_lines, none_parsed,
  parse_requirements_doc, entry_of, cell, add_entry, add_entries, required_columns, missing_columns,
  parse_rows, parse_verification_matrix, tokens_of,
}
use astra_sim_fsw.Requirements.Baseline.{
  traceability_schema, controlled_interface_paths, requirement_fingerprint,
  read_traceability_payload, reviewed_baseline_problems, payload_objects, changed_requirement,
  changed_interface,
}
use astra_sim_fsw.Requirements.Problems.{
  keys_without, collect, common_keys, mismatch, matrix_verification_tokens,
  matrix_consistency_problems, reverse_test_allocation_problems,
}
use astra_sim_fsw.Requirements.Report.{
  unknown_references, count_rows, status_rows, pick, status_row, disposition, linked_to, named_in,
  count_result, report_passed, write_report, exit_code,
}
use astra_sim_fsw.Requirements.Read.{
  ScenarioFile, find_tests, match_test, is_test_char, parse_registered_ctests, quoted_reports,
  evidence_report_passed, load_scenarios,
}
use astra_sim_fsw.Requirements.Main.{
  Outside, Inputs, read_inputs, attempt, finish, main, read_drift, no_baseline,
}
use astra_sim_fsw.Requirements.Passing.{main-passes_iff, IsSound, report_of}

-- The second name is inside the match of the first; the third has no space before it.
tests_found :
    find_tests zero
      (codes "add_test(NAME test_boot)\nadd_test ( NAME\n xadd_test(NAMEfoo) add_test(NAME a.b+c")
    ≡ codes "test_boot" ∷ codes "xadd_test" ∷ codes "a.b+c" ∷ []
unfolding find_tests match_test codes starts_with lstrip_of is_space is_test_char is_digit
tests_found = refl

-- The backtick behind a match opens no other, and one behind a part that does not match does.
reports_found :
    quoted_reports (split b'`' (codes "x`reports/a`reports/b`ctest`reports/c`reports/"))
    ≡ codes "reports/a" ∷ codes "reports/c" ∷ []
unfolding quoted_reports codes starts_with split
reports_found = refl

not_a_list :
    load_scenarios
      (λ v. [])
      (λ p. none)
      []
      (some (
        record {
          path = [];
          shown = codes "s.yaml";
          stem = codes "s";
          loaded = ok (obj (object ((codes "requirements", str []) ∷ [])));
        }
        ∷ []))
    ≡ err (value_error (codes "s.yaml: requirements must be a list"))
unfolding load_scenarios codes get text_eq
not_a_list = refl

abbrev boot_file : ScenarioFile
boot_file = record {
  path = codes "scenarios/boot.yaml";
  shown = codes "/repo/scenarios/boot.yaml";
  stem = codes "boot";
  loaded = ok (
      obj (
        object (
          (codes "name", str (codes "boot"))
          ∷ (codes "requirements", arr (cons (str (codes "FSW-REQ-001")) nil))
          ∷ [])));
}

abbrev matrix_row : Dict Text
matrix_row =
    (codes "requirement_id", codes "FSW-REQ-001")
    ∷ (codes "component", codes " ModeManager")
    ∷ (codes "verification_case", codes "test_boot")
    ∷ (codes "evidence", codes "ctest")
    ∷ (codes "status", codes "Verified")
    ∷ []

abbrev outside : Outside
outside = record {
  digests = record { of_value = λ v. codes "d1"; of_file = λ p. some (codes "d2"); repr = λ v. [] };
  files = λ p. some (codes "Result: PASS");
  requirements_path = [];
  requirements = some (ok (codes "| FSW-REQ-001 | Boot | Test | ctest | Verified |" ∷ []));
  matrix_path = [];
  matrix = some (ok (required_columns, matrix_row ∷ []));
  scenarios_path = [];
  scenarios = some (boot_file ∷ []);
  cmake_path = [];
  cmake = some (ok (codes "add_test(NAME test_boot COMMAND test_boot)"));
  baseline_path = [];
  baseline = some (
      ok (
        obj (
          object (
            (codes "schema", str traceability_schema)
            ∷ (codes "requirements", obj (object ((codes "FSW-REQ-001", str (codes "d1")) ∷ [])))
            ∷ (
              codes "controlled_interfaces",
              obj (object (map (λ k. (k, str (codes "d2"))) (keys controlled_interface_paths))),
            )
            ∷ []))));
  written = λ lines. ok tt;
  output_shown = ok (codes "reports/requirement_check_report.md");
}

passes : main outside ≡ ok 0
unfolding main parse_requirements_doc add_lines add_line starts_with codes add_row columns split
    strip_of strip lstrip_of rstrip_of is_space is_requirement_id is_bar is_digit add_requirement
    has_key text_eq insert none_parsed parse_verification_matrix parse_rows missing_columns
    add_entries add_entry entry_of cell lookup sorted insert_sorted text_leb parse_registered_ctests
    load_scenarios contains_text get str_of read_traceability_payload reviewed_baseline_problems
    requirement_fingerprint matrix_consistency_problems reverse_test_allocation_problems
    report_passed evidence_report_passed write_report exit_code join decimal read_inputs attempt
    finish is_test_char equals_text payload_objects changed_requirement changed_interface
    keys_without collect common_keys mismatch matrix_verification_tokens tokens_of
    unknown_references count_rows status_rows pick status_row disposition linked_to named_in
    count_result
passes = refl

main-passes_iff_example :
    (inputs : Inputs) × (read_inputs outside ≡ ok inputs)
    × (outside.written (report_of outside inputs) ≡ ok tt)
    × ((path : Text) × (outside.output_shown ≡ ok path))
    × IsSound outside inputs
main-passes_iff_example = (main-passes_iff outside).0 passes

missing_baseline : read_drift (record outside { baseline = none }) [] ≡ ok no_baseline
unfolding read_drift
missing_baseline = refl

no_document : main (record outside { requirements = none }) ≡ ok 1
unfolding main read_inputs attempt
no_document = refl
