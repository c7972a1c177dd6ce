-- ===== src/Lcov/Reports.antt =====
-- The three reports of tools/summarize_lcov.py and its `main`. A float is a parameter: the program
-- makes one by rounding 100 * hit / found to two places, and prints it.
use astra_sim_fsw.Base.{
  ℕ, List, [], ◌∷◌, ◌++◌, map, Option, none, some, Text, codes, decimal, Result, ok, err, Exception,
  value_error, os_error, ◌>>=◌, length, if◌then◌else◌,
}
use astra_sim_fsw.Base.Int.{ℤ, pos, int_text, int_eq}
use astra_sim_fsw.Lcov.{CoverageRecord, Paths, parse_lcov, total_record}

module _ {F : Type 0} (ratio : ℤ → ℤ → F) where
  -- `None` where there is nothing to cover.
  unfoldable pub percent : ℤ → ℤ → Option F
  percent hit found = if int_eq found (pos 0) then none else some (ratio hit found)

  -- `to_dict`: the fields of the record and the three percentages.
  pub record Row : Type 0 where
    pub base : CoverageRecord
    pub line_percent : Option F
    pub function_percent : Option F
    pub branch_percent : Option F

  unfoldable pub to_dict : CoverageRecord → Row
  unfolding percent
  to_dict r = record {
    base = r;
    line_percent = percent r.lines_hit r.lines_found;
    function_percent = percent r.functions_hit r.functions_found;
    branch_percent = percent r.branches_hit r.branches_found;
  }

  module _ (two_places : F → Text) where
    unfoldable pub percent_text : Option F → Text
    percent_text none = codes "N/A"
    percent_text (some value) = two_places value ++ codes "%"

    -- `{hit}/{found} ({percent}) | `, and the same at the end of a row.
    cell : ℤ → ℤ → Option F → Text
    unfolding percent_text
    cell hit found value =
        int_text hit
        ++ (codes "/" ++ (int_text found ++ (codes " (" ++ (percent_text value ++ codes ") |"))))

    unfoldable pub markdown_row : CoverageRecord → Text
    unfolding cell to_dict
    markdown_row r =
        let values = to_dict r in
        codes "| `"
        ++ (r.path
            ++ (codes "` | "
                ++ (cell r.lines_hit r.lines_found values.line_percent
                    ++ (codes " "
                        ++ (cell r.functions_hit r.functions_found values.function_percent
                            ++ (codes " "
                                ++ cell r.branches_hit r.branches_found values.branch_percent))))))

    unfoldable pub markdown_total : CoverageRecord → Text
    unfolding cell to_dict
    markdown_total total =
        let values = to_dict total in
        codes "| **TOTAL** | "
        ++ (cell total.lines_hit total.lines_found values.line_percent
            ++ (codes " "
                ++ (cell total.functions_hit total.functions_found values.function_percent
                    ++ (codes " "
                        ++ cell total.branches_hit total.branches_found values.branch_percent))))

    -- The lines of `write_markdown`.
    unfoldable pub write_markdown : List CoverageRecord → List Text
    unfolding markdown_row markdown_total
    write_markdown records =
        codes "# ASTRA-OS Per-Module Structural Coverage"
        ∷ []
        ∷ codes
            "Observed coverage for the exact instrumented run that produced the linked LCOV tracefile. No adequacy, certification, reliability, or safety conclusion is implied by these percentages."
        ∷ []
        ∷ codes "| Production module | Lines | Functions | Branches |"
        ∷ codes "|---|---:|---:|---:|"
        ∷ (map markdown_row records
            ++ (markdown_total (total_record records)
                ∷ []
                ∷ codes "## Exclusions"
                ∷ []
                ∷ codes
                    "The CI collection step removes system headers and `fsw/tests/*`. It does not exclude production files merely because they have low coverage. Any future exclusion must be documented with a technical justification."
                ∷ []))

  module _ (float_text : F → Text) where
    -- `csv.DictWriter` writes `None` as an empty field.
    csv_percent : Option F → Text
    csv_percent none = []
    csv_percent (some value) = float_text value

    unfoldable pub csv_row : CoverageRecord → List Text
    unfolding to_dict csv_percent
    csv_row r =
        let values = to_dict r in
        r.path
        ∷ int_text r.lines_found
        ∷ int_text r.lines_hit
        ∷ csv_percent values.line_percent
        ∷ int_text r.functions_found
        ∷ int_text r.functions_hit
        ∷ csv_percent values.function_percent
        ∷ int_text r.branches_found
        ∷ int_text r.branches_hit
        ∷ csv_percent values.branch_percent
        ∷ []

    -- The rows of `write_csv`: the field names, a row for each record, and the totals.
    unfoldable pub write_csv : List CoverageRecord → List (List Text)
    unfolding csv_row
    write_csv records =
        (codes "path"
          ∷ codes "lines_found"
          ∷ codes "lines_hit"
          ∷ codes "line_percent"
          ∷ codes "functions_found"
          ∷ codes "functions_hit"
          ∷ codes "function_percent"
          ∷ codes "branches_found"
          ∷ codes "branches_hit"
          ∷ codes "branch_percent"
          ∷ [])
        ∷ map csv_row (records ++ (total_record records ∷ []))

  -- The payload of `write_json`.
  pub record Payload : Type 0 where
    pub schema : Text
    pub claim_boundary : Text
    pub module_count : ℕ
    pub modules : List Row
    pub total : Row

  unfoldable pub write_json : List CoverageRecord → Payload
  write_json records = record {
    schema = codes "astra-os.module-coverage.v1";
    claim_boundary =
        codes
          "Observed structural coverage for this exact run. No certification, adequacy, or reliability conclusion is implied.";
    module_count = length records;
    modules = map to_dict records;
    total = to_dict (total_record records);
  }

  -- What `main` leaves: what it returns or raises, the printed line, and the reports it wrote.
  pub record Outcome : Type 0 where
    pub result : Result ℕ
    pub printed : Text
    pub csv : Option (List (List Text))
    pub json : Option Payload
    pub markdown : Option (List Text)

  -- What opening and writing each of the three files raises, if anything.
  pub record Writes : Type 0 where
    pub to_csv : Option Exception
    pub to_json : Option Exception
    pub to_markdown : Option Exception

  module _ (two_places float_text : F → Text) (paths : Paths) (writes : Writes) where
    failed : Text → Outcome
    failed message = record {
      result = ok 1;
      printed = message;
      csv = none;
      json = none;
      markdown = none;
    }

    -- A write that fails raises; the reports before it are written.
    write_reports : List CoverageRecord → Outcome
    write_reports records =
        let start : Outcome = record (failed []) { result = ok 0 } in
        elim writes.to_csv [
          | some e ↦ record start { result = err e }
          | none ↦
              let first : Outcome = record start { csv = some (write_csv float_text records) } in
              elim writes.to_json [
                | some e ↦ record first { result = err e }
                | none ↦
                    let second : Outcome = record first { json = some (write_json records) } in
                    elim writes.to_markdown [
                      | some e ↦ record second { result = err e }
                      | none ↦ record second {
                        printed =
                            codes "Generated per-module coverage evidence for "
                            ++ (decimal (length records) ++ codes " production files.");
                        markdown = some (write_markdown two_places records);
                      }
                    ]
              ]
        ]

    summarize : List CoverageRecord → Outcome
    unfolding failed write_reports
    summarize [] = failed (codes "ERROR: no source records found in LCOV tracefile")
    summarize (r ∷ records) = write_reports (r ∷ records)

    -- The `except` clause catches an `OSError` and a `ValueError`, the only ones raised here.
    message_of : Exception → Text
    message_of (value_error m) = m
    message_of (os_error m) = m
    message_of _ = []

    report : Result (List CoverageRecord) → Outcome
    unfolding summarize message_of
    report (ok records) = summarize records
    report (err e) = failed (codes "ERROR: " ++ message_of e)

    -- `tracefile` is what reading the file gives, split into lines.
    unfoldable pub main : Result (List Text) → Outcome
    unfolding report
    main tracefile = report (do lines ← tracefile; parse_lcov paths lines)
