-- ===== src/Requirements.antt =====
-- tools/check_requirements.py: the requirements document and the verification matrix.
pub mod Problems
pub mod Consistent
pub mod Baseline
pub mod Drift
pub mod Report
pub mod Counted
pub mod Update
pub mod Entries
pub mod Digested
pub mod Rebuilt
pub mod Read
pub mod Main
pub mod Failing
pub mod Allocated
pub mod Passing
mod Tests
mod Runs
pub mod Document
pub mod Matrix
use astra_sim_fsw.Base.{
  ℕ, ◌+◌, Bool, true, false, not, ◌&&◌, ◌||◌, List, [], ◌∷◌, ◌++◌, map, Option, none, some, Text,
  codes, text_eq, starts_with, strip, strip_of, split, is_digit, decimal, length, drop, all, ◌==◌,
  any, filter, join, Result, ok, err, Exception, value_error, ◌>>=◌, if◌then◌else◌,
}
use astra_sim_fsw.Base.Sort.{sorted}
use astra_sim_fsw.Base.Dict.{Dict, lookup, insert, has_key}

pub record Requirement : Type 0 where
  pub req_id : Text
  pub text : Text
  pub method : Text
  pub evidence : Text
  pub status : Text

pub record MatrixEntry : Type 0 where
  pub req_id : Text
  pub component : Text
  pub verification_case : Text
  pub evidence : Text
  pub status : Text
  pub notes : Text

-- `REQUIREMENT_ID_PATTERN.match(text)` of a stripped text, with ASCII digits.
unfoldable pub is_requirement_id : Text → Bool
is_requirement_id s =
    (starts_with s (codes "FSW-REQ-") || starts_with s (codes "VER-REQ-"))
    && length s == 11
    && all is_digit (drop 8 s)

-- `f"{path}:{line_number}: "` before a message.
unfoldable pub at_line : Text → ℕ → Text → Exception
at_line path n message = value_error (path ++ (codes ":" ++ (decimal n ++ (codes ": " ++ message))))

unfoldable pub is_bar : ℕ → Bool
is_bar c = c == b'|'

unfoldable pub columns : Text → List Text
unfolding is_bar
columns line = map strip (split b'|' (strip_of is_bar (strip line)))

-- A row of five columns, behind the test of its identifier.
unfoldable pub add_requirement :
    Text → ℕ → Requirement → Dict Requirement → Result (Dict Requirement)
unfolding at_line
add_requirement path n r requirements =
    if has_key r.req_id requirements
    then err (at_line path n (codes "duplicate requirement ID " ++ r.req_id))
    else if text_eq r.text [] || text_eq r.method [] || text_eq r.status []
    then err (at_line path n (codes "incomplete requirement row " ++ r.req_id))
    else ok (insert r.req_id r requirements)

unfoldable pub add_row : Text → ℕ → List Text → Dict Requirement → Result (Dict Requirement)
add_row path n (req_id ∷ text ∷ method ∷ evidence ∷ status ∷ []) requirements =
    if is_requirement_id req_id
    then add_requirement path n
        (record {
          req_id = req_id;
          text = text;
          method = method;
          evidence = evidence;
          status = status;
        })
        requirements
    else ok requirements
add_row path n _ requirements = ok requirements

unfoldable pub add_line : Text → ℕ → Text → Dict Requirement → Result (Dict Requirement)
add_line path n line requirements =
    if starts_with line (codes "|")
    then add_row path n (columns line) requirements
    else ok requirements

-- The loop over the lines, from the number of the first.
unfoldable pub add_lines : Text → ℕ → List Text → Dict Requirement → Result (Dict Requirement)
add_lines path n [] requirements = ok requirements
add_lines path n (line ∷ lines) requirements =
    add_line path n line requirements >>= λ next. add_lines path (n + 1) lines next

unfoldable pub none_parsed : Text → Dict Requirement → Result (Dict Requirement)
none_parsed path [] = err (value_error (codes "no requirements were parsed from " ++ path))
none_parsed path requirements = ok requirements

-- `parse_requirements_doc` over the lines of a document that exists.
unfoldable pub parse_requirements_doc : Text → List Text → Result (Dict Requirement)
unfolding none_parsed
parse_requirements_doc path lines = add_lines path 1 lines [] >>= none_parsed path

-- `(row.get(key) or "").strip()`
unfoldable pub cell : Text → Dict Text → Text
cell key row = elim (lookup key row) [ none ↦ strip [] | some s ↦ strip s ]

unfoldable pub entry_of : Dict Text → MatrixEntry
entry_of row = record {
  req_id = cell (codes "requirement_id") row;
  component = cell (codes "component") row;
  verification_case = cell (codes "verification_case") row;
  evidence = cell (codes "evidence") row;
  status = cell (codes "status") row;
  notes = cell (codes "notes") row;
}

unfoldable pub add_entry : Text → ℕ → MatrixEntry → Dict MatrixEntry → Result (Dict MatrixEntry)
unfolding at_line
add_entry path n entry entries =
    if not (is_requirement_id entry.req_id)
    then err (at_line path n (codes "invalid requirement ID '" ++ (entry.req_id ++ codes "'")))
    else if has_key entry.req_id entries
    then err (at_line path n (codes "duplicate matrix entry " ++ entry.req_id))
    else if text_eq entry.component []
    then err (at_line path n (entry.req_id ++ codes " has no component allocation"))
    else if not (text_eq entry.status (codes "Planned")) && text_eq entry.verification_case []
    then err (
        at_line path n
          (codes "non-planned " ++ (entry.req_id ++ codes " has no verification case")))
    else ok (insert entry.req_id entry entries)

unfoldable pub add_entries :
    Text → ℕ → List (Dict Text) → Dict MatrixEntry → Result (Dict MatrixEntry)
add_entries path n [] entries = ok entries
add_entries path n (row ∷ rows) entries =
    add_entry path n (entry_of row) entries >>= λ next. add_entries path (n + 1) rows next

abbrev pub required_columns : List Text
required_columns =
    codes "requirement_id"
    ∷ codes "component"
    ∷ codes "verification_case"
    ∷ codes "evidence"
    ∷ codes "status"
    ∷ codes "notes"
    ∷ []

unfoldable pub missing_columns : List Text → List Text
missing_columns fieldnames =
    sorted (λ c. c) (filter (λ c. not (any (text_eq c) fieldnames)) required_columns)

unfoldable pub parse_rows : Text → List Text → List (Dict Text) → Result (Dict MatrixEntry)
parse_rows path [] rows = add_entries path 2 rows []
parse_rows path missing rows =
    err (value_error (path ++ (codes ": missing required columns: " ++ join (codes ", ") missing)))

-- `parse_verification_matrix`, from the field names and the rows of the CSV file.
unfoldable pub parse_verification_matrix :
    Text → List Text → List (Dict Text) → Result (Dict MatrixEntry)
parse_verification_matrix path fieldnames rows = parse_rows path (missing_columns fieldnames) rows

-- The names of the tests in the cases of the matrix.
unfoldable pub tokens_of : MatrixEntry → List Text
tokens_of entry = map strip (split b';' entry.verification_case)
