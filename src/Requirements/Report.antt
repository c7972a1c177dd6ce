-- ===== src/Requirements/Report.antt =====
-- The disposition of each requirement, the report and the exit code.
use astra_sim_fsw.Base.{
  ℕ, ◌+◌, Bool, false, not, ◌||◌, List, [], ◌∷◌, ◌++◌, map, Option, none, some, Text, codes,
  text_eq, join, any, contains_text, ◌==◌, if◌then◌else◌,
}
use astra_sim_fsw.Base.Dict.{Dict, lookup, has_key, keys}
use astra_sim_fsw.Requirements.{Requirement, MatrixEntry}
use astra_sim_fsw.Requirements.Problems.{
  sorted_texts, matrix_consistency_problems, reverse_test_allocation_problems,
}

-- `path` and `report_path` are relative to the repository.
pub record ScenarioEvidence : Type 0 where
  pub name : Text
  pub path : Text
  pub requirements : List Text
  pub report_path : Text
  pub passed : Bool

-- `report_passed`, from the text of the report where it exists.
unfoldable pub report_passed : Option Text → Bool
report_passed none = false
report_passed (some text) =
    contains_text (codes "Result: PASS") text || contains_text (codes "Scenario passed.") text

-- The scenarios that name a requirement, one for each time that it is named.
unfoldable pub named_in : Text → ScenarioEvidence → List Text → List ScenarioEvidence
named_in req_id scenario [] = []
named_in req_id scenario (r ∷ rs) =
    if text_eq r req_id then scenario ∷ named_in req_id scenario rs else named_in req_id scenario rs

unfoldable pub linked_to : Text → List ScenarioEvidence → List ScenarioEvidence
linked_to req_id [] = []
linked_to req_id (scenario ∷ scenarios) =
    named_in req_id scenario scenario.requirements ++ linked_to req_id scenarios

unfoldable pub unknown_in : Dict Requirement → ScenarioEvidence → List Text → List Text
unknown_in requirements scenario [] = []
unknown_in requirements scenario (r ∷ rs) =
    if has_key r requirements
    then unknown_in requirements scenario rs
    else (codes "Scenario " ++ (scenario.path ++ (codes " references unknown requirement " ++ r)))
      ∷ unknown_in requirements scenario rs

unfoldable pub unknown_references : Dict Requirement → List ScenarioEvidence → List Text
unfolding unknown_in
unknown_references requirements [] = []
unknown_references requirements (scenario ∷ scenarios) =
    unknown_in requirements scenario scenario.requirements
    ++ unknown_references requirements scenarios

-- The keys of the counts.
pub data Disposition : Type 0 where
  pass manual planned historical fail : Disposition

-- The disposition of a requirement, from its scenarios and `evidence_report_passed`.
unfoldable pub disposition : Requirement → List ScenarioEvidence → Bool → Disposition
disposition requirement linked evidence_passed =
    if text_eq requirement.status (codes "Planned")
    then planned
    else if text_eq requirement.status (codes "Historical")
    then historical
    else if any (λ s. not s.passed) linked
    then fail
    else if any (λ s. s.passed) linked || evidence_passed
    then pass
    else manual

pub record Counts : Type 0 where
  pub pass_count : ℕ
  pub manual_count : ℕ
  pub planned_count : ℕ
  pub historical_count : ℕ
  pub fail_count : ℕ

abbrev pub no_counts : Counts
no_counts = record {
  pass_count = 0;
  manual_count = 0;
  planned_count = 0;
  historical_count = 0;
  fail_count = 0;
}

-- `counts[result] += 1`
unfoldable pub count_result : Disposition → Counts → Counts
count_result pass c = record c { pass_count = c.pass_count + 1 }
count_result manual c = record c { manual_count = c.manual_count + 1 }
count_result planned c = record c { planned_count = c.planned_count + 1 }
count_result historical c = record c { historical_count = c.historical_count + 1 }
count_result fail c = record c { fail_count = c.fail_count + 1 }

pub record StatusRow : Type 0 where
  pub req_id : Text
  pub result : Disposition
  pub doc_status : Text
  pub component : Text
  pub evidence : Text

-- The first text that is not empty.
or_text : Text → Text → Text
or_text [] b = b
or_text a b = a

component_of : Option MatrixEntry → Text
component_of none = codes "MISSING"
component_of (some entry) = entry.component

case_of : Option MatrixEntry → Text
case_of none = []
case_of (some entry) = entry.verification_case

-- The row of a requirement under its key; `evidence_passed` is `evidence_report_passed`.
unfoldable pub status_row :
    (Text → Bool) → Dict MatrixEntry → List ScenarioEvidence → Text × Requirement → StatusRow
unfolding or_text component_of case_of
status_row evidence_passed matrix scenarios (req_id, requirement) =
    let linked = linked_to req_id scenarios in
    let entry = lookup req_id matrix in
    record {
      req_id = req_id;
      result = disposition requirement linked (evidence_passed requirement.evidence);
      doc_status = requirement.status;
      component = component_of entry;
      evidence =
          or_text (join (codes ", ") (map (λ s. s.name) linked))
            (or_text (case_of entry) requirement.evidence);
    }

-- `requirements[req_id] for req_id in ...`, each with its key.
unfoldable pub pick : Dict Requirement → List Text → Dict Requirement
pick requirements [] = []
pick requirements (i ∷ is) = elim (lookup i requirements) [
  | none ↦ pick requirements is
  | some r ↦ (i, r) ∷ pick requirements is
]

unfoldable pub status_rows :
    (Text → Bool) → Dict Requirement → Dict MatrixEntry → List ScenarioEvidence → List StatusRow
status_rows evidence_passed requirements matrix scenarios =
    map (status_row evidence_passed matrix scenarios)
      (pick requirements (sorted_texts (keys requirements)))

unfoldable pub count_rows : Counts → List StatusRow → Counts
unfolding count_result
count_rows counts [] = counts
count_rows counts (row ∷ rows) = count_rows (count_result row.result counts) rows

-- `write_report`: the rows, the counts and the problems. `drift` is what the comparison with the
-- reviewed baseline reports.
pub record Outcome : Type 0 where
  pub rows : List StatusRow
  pub counts : Counts
  pub problems : List Text

unfoldable pub write_report :
    (Text → Bool)
    → Dict Requirement
    → Dict MatrixEntry
    → List ScenarioEvidence
    → List Text
    → List Text
    → Outcome
write_report evidence_passed requirements matrix scenarios registered_tests drift =
    let rows = status_rows evidence_passed requirements matrix scenarios in
    record {
      rows = rows;
      counts = count_rows no_counts rows;
      problems =
          matrix_consistency_problems requirements matrix
          ++ (reverse_test_allocation_problems registered_tests matrix
              ++ (drift ++ unknown_references requirements scenarios));
    }

-- The exit code of `main`.
unfoldable pub exit_code : Outcome → ℕ
exit_code outcome = elim outcome.problems [
  | [] ↦ if outcome.counts.fail_count == 0 then 0 else 1
  | p ∷ problems ↦ 1
]
