-- ===== src/Requirements/Tests.antt =====
-- A document of one requirement, its matrix, its baseline and its report.
use astra_sim_fsw.Base.{
  List, [], ◌∷◌, ◌≡◌, ◌≢◌, ◌↔◌, refl, some, Text, codes, text_eq, starts_with, strip, strip_of,
  lstrip_of, rstrip_of, is_space, is_digit, split, ok, All,
}
use astra_sim_fsw.Base.Dict.{Dict, lookup, insert, has_key}
use astra_sim_fsw.Requirements.{
  Requirement, MatrixEntry, is_requirement_id, is_bar, columns, add_requirement, add_row, add_line,
  add_lines, none_parsed, parse_requirements_doc,
}
use astra_sim_fsw.Requirements.Document.{IsFiled, IsDistinct, parse_requirements_doc-IsTable}
use astra_sim_fsw.Requirements.{
  entry_of, cell, add_entry, add_entries, required_columns, missing_columns, parse_rows,
  parse_verification_matrix,
}
use astra_sim_fsw.Base.Sort.{sorted}
use astra_sim_fsw.Requirements.Matrix.{IsAllocated, parse_verification_matrix-IsAllocated}
use astra_sim_fsw.Requirements.Problems.{matrix_consistency_problems}
use astra_sim_fsw.Requirements.Consistent.{IsConsistent, matrix_consistency_problems_iff}
use astra_sim_fsw.Requirements.Baseline.{Digests, Payload, reviewed_baseline_problems}
use astra_sim_fsw.Requirements.Drift.{IsReviewed, reviewed_baseline_problems_iff}
use astra_sim_fsw.Base.{map, text_leb}
use astra_sim_fsw.Base.Dict.{keys}
use astra_sim_fsw.Base.Sort.{insert_sorted}
use astra_sim_fsw.Base.Json.{Value, str, obj, object, sort_keys}
use astra_sim_fsw.Requirements.Baseline.{
  traceability_schema, controlled_interface_paths, requirement_fingerprint,
  read_traceability_payload,
}
use astra_sim_fsw.Requirements.Update
use astra_sim_fsw.Requirements.Update.{
  finish, build_traceability_payload, interface_digests, fingerprints, review_note,
}
use astra_sim_fsw.Requirements.Rebuilt.{main-reviewed}

abbrev path : Text
path = codes "docs/REQUIREMENTS.md"

abbrev lines : List Text
lines =
    codes "# Requirements"
    ∷ codes "| ID | Text | Method | Evidence | Status |"
    ∷ codes "| FSW-REQ-001 | Boot | Test | ctest | Verified |"
    ∷ []

abbrev boot : Requirement
boot = record {
  req_id = codes "FSW-REQ-001";
  text = codes "Boot";
  method = codes "Test";
  evidence = codes "ctest";
  status = codes "Verified";
}

abbrev requirements : Dict Requirement
requirements = (codes "FSW-REQ-001", boot) ∷ []

parsed : parse_requirements_doc path lines ≡ ok requirements
unfolding parse_requirements_doc none_parsed add_lines add_line add_row add_requirement columns
    is_bar is_requirement_id insert has_key codes text_eq starts_with strip strip_of lstrip_of
    rstrip_of is_space is_digit split
parsed = refl

parse_requirements_doc-IsTable_example :
    All IsFiled requirements × IsDistinct requirements × (requirements ≢ [])
parse_requirements_doc-IsTable_example =
    parse_requirements_doc-IsTable path lines requirements parsed

abbrev matrix : Dict MatrixEntry
matrix =
    (
      codes "FSW-REQ-001",
      record {
        req_id = codes "FSW-REQ-001";
        component = codes "ModeManager";
        verification_case = codes "test_boot";
        evidence = codes "ctest";
        status = codes "Verified";
        notes = [];
      },
    )
    ∷ []

abbrev row : Dict Text
row =
    (codes "requirement_id", codes "FSW-REQ-001")
    ∷ (codes "component", codes " ModeManager")
    ∷ (codes "verification_case", codes "test_boot")
    ∷ (codes "evidence", codes "ctest")
    ∷ (codes "status", codes "Verified")
    ∷ []

read : parse_verification_matrix path required_columns (row ∷ []) ≡ ok matrix
unfolding parse_verification_matrix parse_rows missing_columns add_entries add_entry entry_of cell
    is_requirement_id lookup insert has_key codes text_eq starts_with strip strip_of lstrip_of
    rstrip_of is_space is_digit sorted
read = refl

parse_verification_matrix-IsAllocated_example : All IsAllocated matrix × IsDistinct matrix
parse_verification_matrix-IsAllocated_example =
    parse_verification_matrix-IsAllocated path required_columns (row ∷ []) matrix read

matrix_consistency_problems_iff_example :
    (matrix_consistency_problems requirements matrix ≡ []) ↔ IsConsistent requirements matrix
matrix_consistency_problems_iff_example = matrix_consistency_problems_iff requirements matrix

abbrev digests : Digests
digests = record { of_value = λ v. codes "d1"; of_file = λ p. some (codes "d2"); repr = λ v. [] }

abbrev payload : Payload
payload = record { requirements = []; controlled_interfaces = [] }

reviewed_baseline_problems_iff_example :
    (reviewed_baseline_problems digests requirements payload ≡ [])
    ↔ IsReviewed digests requirements payload
reviewed_baseline_problems_iff_example = reviewed_baseline_problems_iff digests requirements payload

abbrev rebuilt_payload : Value
rebuilt_payload = obj (
    object (
      (codes "schema", str traceability_schema)
      ∷ (codes "requirements", obj (object (map (λ k. (k, str (codes "d1"))) (keys requirements))))
      ∷ (
        codes "controlled_interfaces",
        obj (object (map (λ k. (k, str (codes "d2"))) (keys controlled_interface_paths))),
      )
      ∷ (codes "review_note", str review_note)
      ∷ []))

writes : (Update.main digests (ok []) (ok requirements)).0 ≡ some rebuilt_payload
unfolding Update.main finish build_traceability_payload interface_digests fingerprints
    requirement_fingerprint sorted insert_sorted text_leb lookup text_eq codes
writes = refl

main-reviewed_example :
    (p : Payload) × (read_traceability_payload [] (ok (sort_keys rebuilt_payload)) ≡ ok p)
    × (reviewed_baseline_problems digests requirements p ≡ [])
main-reviewed_example = main-reviewed digests (ok []) requirements [] rebuilt_payload writes
