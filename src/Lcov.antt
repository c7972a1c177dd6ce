-- ===== src/Lcov.antt =====
-- tools/summarize_lcov.py: the LCOV tracefile parser and the per-module coverage reports.
pub mod Totals
pub mod Shape
pub mod RoundTrip
pub mod Reports
mod Tests
use astra_sim_fsw.Base.{
  ℕ, zero, suc, Bool, true, false, List, [], ◌∷◌, ◌++◌, Option, none, some, Text, codes, text_eq,
  starts_with, strip, partition, drop, join, Result, ok, err, value_error, ◌>>=◌, if◌then◌else◌,
}
use astra_sim_fsw.Base.Int.{ℤ, pos, ◌+ℤ◌}
use astra_sim_fsw.Base.Number.{parse_int}
use astra_sim_fsw.Base.Sort.{sorted}

-- What `pathlib` knows of the file system: a path resolved to its parts from the root, and the
-- text of a path as it was written.
pub record Paths : Type 0 where
  pub resolve : Text → List Text
  pub path_text : Text → Text
  pub repo_root : List Text

pub record CoverageRecord : Type 0 where
  pub path : Text
  pub lines_found : ℤ
  pub lines_hit : ℤ
  pub functions_found : ℤ
  pub functions_hit : ℤ
  pub branches_found : ℤ
  pub branches_hit : ℤ

abbrev pub new_record : Text → CoverageRecord
new_record path = record {
  path = path;
  lines_found = pos 0;
  lines_hit = pos 0;
  functions_found = pos 0;
  functions_hit = pos 0;
  branches_found = pos 0;
  branches_hit = pos 0;
}

-- `path.relative_to(root)` on the parts; `none` for its `ValueError`.
unfoldable pub relative_to : List Text → List Text → Option (List Text)
relative_to parts [] = some parts
relative_to [] (r ∷ root) = none
relative_to (p ∷ parts) (r ∷ root) = if text_eq p r then relative_to parts root else none

-- `str` of a relative path.
relative_text : List Text → Text
relative_text [] = codes "."
relative_text (p ∷ parts) = join (codes "/") (p ∷ parts)

unfoldable pub normalize_source_path : Paths → Text → Text
unfolding relative_text relative_to
normalize_source_path paths source = elim (relative_to (paths.resolve source) paths.repo_root) [
  | none ↦ paths.path_text source
  | some parts ↦ relative_text parts
]

-- The two variables of the loop.
pub record State : Type 0 where
  pub records : List CoverageRecord
  pub current : Option CoverageRecord

abbrev pub initial : State
initial = record { records = []; current = none }

-- The chain of tests on the key of a line inside a record.
unfoldable pub set_counter : CoverageRecord → Text → Text → Result CoverageRecord
set_counter r key value =
    if text_eq key (codes "LF")
    then (do n ← parse_int value; ok (record r { lines_found = n }))
    else if text_eq key (codes "LH")
    then (do n ← parse_int value; ok (record r { lines_hit = n }))
    else if text_eq key (codes "FNF")
    then (do n ← parse_int value; ok (record r { functions_found = n }))
    else if text_eq key (codes "FNH")
    then (do n ← parse_int value; ok (record r { functions_hit = n }))
    else if text_eq key (codes "BRF")
    then (do n ← parse_int value; ok (record r { branches_found = n }))
    else if text_eq key (codes "BRH")
    then (do n ← parse_int value; ok (record r { branches_hit = n }))
    else ok r

-- A line of the form `SF:…`.
unfoldable pub open_record : Paths → State → Text → Result State
open_record paths s line = elim s.current [
  | none ↦ ok (record s { current = some (new_record (normalize_source_path paths (drop 3 line))) })
  | some r ↦ err (value_error (codes "encountered a new source file before end_of_record"))
]

unfoldable pub close_record : State → Result State
close_record s = elim s.current [
  | none ↦ err (value_error (codes "end_of_record without source file"))
  | some r ↦ ok (record { records = s.records ++ (r ∷ []); current = none })
]

-- Any other line: ignored outside a record and without a colon.
unfoldable pub counter_line : State → Text → Result State
counter_line s line = elim s.current [
  | none ↦ ok s
  | some r ↦ elim (partition b':' line) [
    | none ↦ ok s
    | some (key, value) ↦ do r' ← set_counter r key value; ok (record s { current = some r' })
  ]
]

-- The body of the loop, on a stripped line.
unfoldable pub step : Paths → State → Text → Result State
step paths s line =
    if text_eq line []
    then ok s
    else if starts_with line (codes "SF:")
    then open_record paths s line
    else if text_eq line (codes "end_of_record")
    then close_record s
    else counter_line s line

unfoldable pub run : Paths → State → List Text → Result State
run paths s [] = ok s
run paths s (raw_line ∷ lines) = do s' ← step paths s (strip raw_line); run paths s' lines

abbrev pub record_path : CoverageRecord → Text
record_path r = r.path

unfoldable pub finish : State → Result (List CoverageRecord)
finish s = elim s.current [
  | none ↦ ok (sorted record_path s.records)
  | some r ↦ err (value_error (codes "LCOV tracefile ended before end_of_record"))
]

unfoldable pub parse_lcov : Paths → List Text → Result (List CoverageRecord)
parse_lcov paths lines = do s ← run paths initial lines; finish s

-- `total.lines_found += record.lines_found`, and so on.
unfoldable pub add_record : CoverageRecord → CoverageRecord → CoverageRecord
add_record total r = record total {
  lines_found = total.lines_found +ℤ r.lines_found;
  lines_hit = total.lines_hit +ℤ r.lines_hit;
  functions_found = total.functions_found +ℤ r.functions_found;
  functions_hit = total.functions_hit +ℤ r.functions_hit;
  branches_found = total.branches_found +ℤ r.branches_found;
  branches_hit = total.branches_hit +ℤ r.branches_hit;
}

unfoldable pub total_from : CoverageRecord → List CoverageRecord → CoverageRecord
unfolding add_record
total_from total [] = total
total_from total (r ∷ records) = total_from (add_record total r) records

unfoldable pub total_record : List CoverageRecord → CoverageRecord
unfolding total_from
total_record records = total_from (new_record (codes "TOTAL")) records
