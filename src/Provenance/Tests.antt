-- ===== src/Provenance/Tests.antt =====
-- tools/generate_baseline_manifest.py: concrete runs.
use astra_sim_fsw.Base.{
  true, false, not, if◌then◌else◌, [], ◌∷◌, ◌≡◌, refl, ap, none, some, Text, codes, text_eq, ok,
  err, os_error, length, strip, is_space, text_leb,
}
use astra_sim_fsw.Base.Int.{pos}
use astra_sim_fsw.Base.Sort.{sorted, insert_sorted}
use astra_sim_fsw.Repository.{
  paths_of, dirty, source_dirty, unique, contains, collect_repository_state, classify,
}
use astra_sim_fsw.Workflow.AllScenarios.{path_key}
use astra_sim_fsw.Provenance.{
  Outside, FileRecord, Probe, candidates, run_probe, git_text, evidence_inputs, records_of,
  file_manifest,
}
use astra_sim_fsw.Provenance.Main.{Args, Manifest, compiler, build_manifest, main, manifest_of}
use astra_sim_fsw.Provenance.Listed.{IsBuilt, main-Lists}

abbrev args : Args
args = record {
  verification_status = codes "passed";
  test_command = codes "python3 tools/run_all_scenarios.py" ∷ [];
  note = [];
  build_type = codes "Debug";
  warnings_as_errors = true;
  sanitizers_enabled = false;
  coverage_enabled = false;
}

abbrev outside : Outside
outside = record {
  which = λ program. text_eq program (codes "git");
  run = λ command. ok (record { return_code = pos 0; stdout = []; stderr = codes " abc\ndef\n" });
  environ = λ name. none;
  glob = λ pattern.
      ok (if text_eq pattern (codes "*.md") then codes "README.md" ∷ codes "docs" ∷ [] else []);
  is_file = λ path. not (text_eq path (codes "docs"));
  size = λ path. ok (length path);
  sha256 = λ path. ok (codes "d1");
  status_code = pos 0;
  status_stderr = [];
  status_lines = [];
  root = codes "/repo";
  now = codes "2026-01-01T00:00:00+00:00";
  host = record { system = []; release = []; machine = []; platform = []; python = [] };
  made = ok tt;
  written = ok tt;
  shown = ok (codes "reports/latest/baseline_manifest.json");
}

-- The output is that of stderr where stdout is empty, and its first line counts.
first_line_of_stderr : git_text outside (codes "describe" ∷ []) ≡ ok (some (codes "abc"))
unfolding git_text run_probe text_eq codes strip is_space
first_line_of_stderr = refl

no_program : git_text (record outside { which = λ p. false }) [] ≡ ok none
unfolding git_text run_probe
no_program = refl

does_not_run :
    git_text (record outside { run = λ c. err (os_error (codes "timed out")) }) [] ≡ ok none
unfolding git_text run_probe text_eq codes
does_not_run = refl

listed :
    evidence_inputs outside
    ≡ ok (codes ".gitignore" ∷ codes "CMakeLists.txt" ∷ codes "README.md" ∷ [])
unfolding evidence_inputs candidates codes text_eq unique contains sorted insert_sorted path_key
    text_leb
listed = refl

abbrev missing : Text → Probe
missing program = record {
  command = program ∷ codes "--version" ∷ [];
  available = false;
  return_code = none;
  output = none;
  error = none;
}

abbrev digest : Text → FileRecord
digest path = record { path = path; size_bytes = length path; sha256 = codes "d1" }

abbrev manifest : Manifest
manifest = record {
  generated_at_utc = outside.now;
  status = codes "passed";
  commands = codes "python3 tools/run_all_scenarios.py" ∷ [];
  note = [];
  root = codes "/repo";
  described = record {
    commit = some (codes "abc");
    branch = some (codes "abc");
    describe = some (codes "abc");
    remote = some (codes "abc");
  };
  dirty = false;
  source_dirty = false;
  dirty_paths = [];
  source_dirty_paths = [];
  generated_evidence_dirty_paths = [];
  host = outside.host;
  toolchain = record {
    cmake = missing (codes "cmake");
    compiler = missing (codes "c++");
    ctest = missing (codes "ctest");
    git = record {
      command = codes "git" ∷ codes "--version" ∷ [];
      available = true;
      return_code = some (pos 0);
      output = some (codes "abc\ndef");
      error = none;
    };
  };
  cxx = codes "c++";
  build_type = codes "Debug";
  warnings_as_errors = true;
  sanitizers_enabled = false;
  coverage_enabled = false;
  source_date_epoch = none;
  github_run_id = none;
  github_run_attempt = none;
  github_workflow = none;
  inputs =
      digest (codes ".gitignore")
      ∷ digest (codes "CMakeLists.txt")
      ∷ digest (codes "README.md")
      ∷ [];
}

written : main outside args ≡ (some manifest, ok 0)
unfolding main build_manifest manifest_of git_text run_probe codes text_eq strip is_space
    file_manifest records_of evidence_inputs candidates unique contains sorted insert_sorted
    path_key text_leb collect_repository_state classify paths_of dirty source_dirty compiler
written = refl

main-Lists_example : IsBuilt outside args manifest
main-Lists_example = main-Lists outside args manifest (ap (λ r. r.0) written)
