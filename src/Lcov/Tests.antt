-- ===== src/Lcov/Tests.antt =====
-- Runs of the coverage summary, and its theorems at concrete tracefiles.
use astra_sim_fsw.Base.{
  ℕ, List, [], ◌∷◌, map, ◌≡◌, refl, none, some, codes, text_eq, starts_with, strip, is_space,
  partition, decimal, text_leb, ok, err, value_error, os_error, length, count_if,
}
use astra_sim_fsw.Base.Number.{parse_int}
use astra_sim_fsw.Base.Sort.{sorted, IsSorted}
use astra_sim_fsw.Lcov.{
  Paths, record_path, set_counter, open_record, close_record, counter_line, step, run, finish,
  parse_lcov, normalize_source_path,
}
use astra_sim_fsw.Lcov.Shape.{opens, closes, parse_lcov-shape}
use astra_sim_fsw.Lcov.RoundTrip.{Module, to_record, print_modules, parse_lcov-print_modules}
use astra_sim_fsw.Lcov.Reports.{Writes, main}

-- Every path lies outside the repository, and is printed as it is written.
abbrev outside : Paths
outside = record { resolve = λ s. []; path_text = λ s. s; repo_root = codes "repo" ∷ [] }

abbrev clock : Module
clock = record {
  path = codes "b.cpp";
  functions_found = 2;
  functions_hit = 1;
  branches_found = 0;
  branches_hit = 0;
  lines_found = 120;
  lines_hit = 100;
}

abbrev modules : List Module
modules = clock ∷ record clock { path = codes "a.cpp"; lines_found = 10 } ∷ []

parsed :
    parse_lcov outside (print_modules modules)
    ≡ ok
        (to_record (record clock { path = codes "a.cpp"; lines_found = 10 }) ∷ to_record clock ∷ [])
unfolding parse_lcov run step open_record close_record counter_line set_counter finish
    normalize_source_path codes text_eq starts_with strip is_space partition decimal parse_int
    text_leb sorted
parsed = refl

-- A missing `end_of_record`, a second `SF:`, and a stray `end_of_record`.
refused :
    (parse_lcov outside (codes "SF:a" ∷ [])
      ≡ err (value_error (codes "LCOV tracefile ended before end_of_record")))
    × (parse_lcov outside (codes "SF:a" ∷ codes "SF:b" ∷ [])
        ≡ err (value_error (codes "encountered a new source file before end_of_record")))
    × (parse_lcov outside (codes " end_of_record" ∷ [])
        ≡ err (value_error (codes "end_of_record without source file")))
unfolding parse_lcov run step open_record close_record counter_line finish normalize_source_path
    codes text_eq starts_with strip is_space
refused = (refl, refl, refl)

parse_lcov-shape_example :
    let records =
      to_record (record clock { path = codes "a.cpp"; lines_found = 10 }) ∷ to_record clock ∷ [] in
    (length records ≡ count_if closes (print_modules modules))
    × (length records ≡ count_if opens (print_modules modules))
    × IsSorted record_path records
parse_lcov-shape_example = parse_lcov-shape outside (print_modules modules) parsed

parse_lcov-print_modules_example :
    parse_lcov outside (print_modules modules) ≡ ok (sorted record_path (map to_record modules))
unfolding strip is_space codes normalize_source_path
parse_lcov-print_modules_example = parse_lcov-print_modules outside modules (
  record { stripped = refl; normalized = refl },
  (record { stripped = refl; normalized = refl }, tt),
)

-- The tracefile holds no record.
empty_tracefile :
    let writes : Writes {F = ℕ} (λ hit found. 0) = record {
      to_csv = none;
      to_json = none;
      to_markdown = none;
    } in
    (main {F = ℕ} (λ hit found. 0) (λ p. []) (λ p. []) outside writes (ok [])).result ≡ ok 1
unfolding main parse_lcov run finish sorted
empty_tracefile = refl

-- The second write fails: the first report is written, and the exception is not caught.
failed_write :
    let writes : Writes {F = ℕ} (λ hit found. 0) = record {
      to_csv = none;
      to_json = some (os_error []);
      to_markdown = none;
    } in
    let left =
      main {F = ℕ}
        (λ hit found. 0)
        (λ p. [])
        (λ p. [])
        outside
        writes
        (ok (print_modules (clock ∷ []))) in
    (left.result ≡ err (os_error [])) × (left.json ≡ none)
unfolding main parse_lcov run step open_record close_record counter_line set_counter finish
    normalize_source_path codes text_eq starts_with strip is_space partition decimal parse_int
    text_leb sorted
failed_write = (refl, refl)
