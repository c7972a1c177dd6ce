-- ===== src/Repository/Tests.antt =====
-- A source file renamed into the reports.
use astra_sim_fsw.Base.{
  true, List, [], ◌∷◌, ◌≡◌, ◌↔◌, refl, Text, codes, text_eq, starts_with, strip, strip_of,
  lstrip_of, rstrip_of, is_space, All, ok, map,
}
use astra_sim_fsw.Base.Int.{pos, int_eq}
use astra_sim_fsw.Base.Sort.{sorted, insert_sorted}
use astra_sim_fsw.Repository.{
  RepositoryState, source_dirty, behind_arrow, unquoted, normalize_porcelain_path, path_of,
  paths_of, contains, unique, is_generated, classify, collect_repository_state,
}
use astra_sim_fsw.Repository.Porcelain.{
  Entry, changed, renamed, IsPlain, any-IsArrowless, IsEvidence, printed, counted,
}
use astra_sim_fsw.Repository.Clean.{report, main, exit_code, main-clean_iff}

abbrev lines : List Text
lines = codes "R  fsw/src/watchdog.cpp -> reports/watchdog.cpp" ∷ []

abbrev state : RepositoryState
unfolding codes
state = record {
  dirty_paths = codes "reports/watchdog.cpp" ∷ [];
  source_dirty_paths = [];
  generated_dirty_paths = codes "reports/watchdog.cpp" ∷ [];
}

collected : collect_repository_state (pos 0) [] lines ≡ ok state
unfolding collect_repository_state classify paths_of path_of normalize_porcelain_path behind_arrow
    unquoted unique contains is_generated sorted insert_sorted codes text_eq starts_with strip
    strip_of lstrip_of rstrip_of is_space
collected = refl

cleaned : exit_code (main (collect_repository_state (pos 0) [] lines)) ≡ ok 0
unfolding main report source_dirty collect_repository_state classify paths_of path_of
    normalize_porcelain_path behind_arrow unquoted unique contains is_generated sorted insert_sorted
    codes text_eq starts_with strip strip_of lstrip_of rstrip_of is_space
cleaned = refl

-- The same line as an entry, and a changed source file.
abbrev entries : List Entry
unfolding codes
entries =
    renamed b'R' b' ' (codes "fsw/src/watchdog.cpp") b'r' (codes "eports/watchdog.cpp")
    ∷ changed b' ' b'M' b'f' (codes "sw/src/main.cpp")
    ∷ []

entries-IsPlain : All IsPlain entries
unfolding entries codes strip strip_of lstrip_of rstrip_of is_space
entries-IsPlain = (
  (refl, refl, any-IsArrowless (codes "fsw/src/watchdog.cpp") refl),
  ((refl, refl, any-IsArrowless (codes "fsw/src/main.cpp") refl), tt),
)

main-clean_iff_example :
    (exit_code (main (collect_repository_state (pos 0) [] (map printed entries))) ≡ ok 0)
    ↔ ((int_eq (pos 0) (pos 0) ≡ true) × All (λ e. IsEvidence (counted e)) entries)
main-clean_iff_example = main-clean_iff (pos 0) [] entries entries-IsPlain
