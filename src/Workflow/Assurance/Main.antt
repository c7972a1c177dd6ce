-- ===== src/Workflow/Assurance/Main.antt =====
-- tools/run_astra_os_assurance.py: the planned stages and `main`.
use astra_sim_fsw.Base.{
  Bool, true, false, not, List, [], ◌∷◌, ◌++◌, Text, codes, Exception, os_error, keyboard_interrupt,
  Result, ok, err, Option, none, some, if◌then◌else◌,
}
use astra_sim_fsw.Base.Int.{ℤ, pos, int_eq}
use astra_sim_fsw.Base.Json.{Value}
use astra_sim_fsw.Workflow.{Command, Trace, Place, path_in}
use astra_sim_fsw.Workflow.Assurance.{
  StageResult, passed, Planned, Outside, run_stage, write_summary, manifest_command,
}

pub record Args : Type 0 where
  pub quick : Bool
  pub build_dir : Text
  pub skip_monte_carlo : Bool
  pub skip_pi_package : Bool

unfoldable pub full_verification_command : Place → Args → Command
unfolding path_in
full_verification_command place args =
    place.executable
    ∷ path_in place (codes "tools/run_all_scenarios.py")
    ∷ codes "--build-dir"
    ∷ args.build_dir
    ∷ ((if args.skip_monte_carlo then codes "--skip-monte-carlo" ∷ [] else [])
        ++ (if args.skip_pi_package then codes "--skip-pi-package" ∷ [] else []))

-- A stage that adds nothing to the environment.
abbrev plain : Text → Command → Planned
plain name command = record { name = name; command = command; environment = [] }

unfoldable pub first_stages : Place → Args → List Planned
unfolding path_in full_verification_command
first_stages place args =
    plain (codes "source_cleanliness")
      (place.executable ∷ path_in place (codes "tools/check_source_cleanliness.py") ∷ [])
    ∷ plain (codes "python_tool_tests") (
        place.executable
        ∷ codes "-m"
        ∷ codes "unittest"
        ∷ codes "discover"
        ∷ codes "-s"
        ∷ codes "tools/tests"
        ∷ codes "-p"
        ∷ codes "test_*.py"
        ∷ [])
    ∷ plain (codes "full_verification") (full_verification_command place args)
    ∷ []

unfoldable pub sanitizer_build : Place → Text
unfolding path_in
sanitizer_build place = path_in place (codes "build-assurance-sanitizers")

unfoldable pub further_stages : Place → List Planned
unfolding path_in sanitizer_build
further_stages place =
    plain (codes "configure_sanitizers") (
      codes "cmake"
      ∷ codes "-S"
      ∷ codes "."
      ∷ codes "-B"
      ∷ sanitizer_build place
      ∷ codes "-DCMAKE_BUILD_TYPE=Debug"
      ∷ codes "-DASTRA_WARNINGS_AS_ERRORS=ON"
      ∷ codes "-DASTRA_ENABLE_SANITIZERS=ON"
      ∷ [])
    ∷ plain (codes "build_sanitizers")
        (codes "cmake" ∷ codes "--build" ∷ sanitizer_build place ∷ codes "--parallel" ∷ [])
    ∷ record {
      name = codes "test_sanitizers";
      command =
          codes "ctest"
          ∷ codes "--test-dir"
          ∷ sanitizer_build place
          ∷ codes "--output-on-failure"
          ∷ [];
      environment =
          (codes "ASAN_OPTIONS", codes "detect_leaks=1:halt_on_error=1:strict_string_checks=1")
          ∷ (codes "UBSAN_OPTIONS", codes "halt_on_error=1:print_stacktrace=1")
          ∷ [];
    }
    ∷ plain (codes "controlled_mutation")
        (place.executable ∷ path_in place (codes "tools/run_controlled_mutation.py") ∷ [])
    ∷ []

unfoldable pub planned_stages : Place → Args → List Planned
planned_stages place args =
    first_stages place args ++ (if args.quick then [] else further_stages place)

-- What the loop over the stages leaves: `commands_executed`, `results`, whether `overall_status`
-- is "passed", and the exception that left the `try`.
pub record Progress : Type 0 where
  pub commands_executed : Trace
  pub results : List StageResult
  pub good : Bool
  pub pending : Option Exception

-- `except (OSError, KeyboardInterrupt)`: the run counts as failed and goes on; any other exception
-- leaves the status as it is.
unfoldable pub interrupted : Trace → List StageResult → Exception → Progress
interrupted commands results (os_error m) = record {
  commands_executed = commands;
  results = results;
  good = false;
  pending = none;
}
interrupted commands results keyboard_interrupt = record {
  commands_executed = commands;
  results = results;
  good = false;
  pending = none;
}
interrupted commands results e = record {
  commands_executed = commands;
  results = results;
  good = true;
  pending = some e;
}

unfoldable pub run_stages : Outside → Trace → List StageResult → List Planned → Progress
unfolding passed
run_stages outside commands results [] = record {
  commands_executed = commands;
  results = results;
  good = true;
  pending = none;
}
run_stages outside commands results (stage ∷ stages) =
    let started = commands ++ (stage.command ∷ []) in
    elim (run_stage outside commands stage) [
      | err e ↦ interrupted started results e
      | ok result ↦
          let rest = run_stages outside started (results ++ (result ∷ [])) stages in
          if passed result then rest else record {
            commands_executed = started;
            results = results ++ (result ∷ []);
            good = false;
            pending = none;
          }
    ]

-- What a run leaves: the summaries written, the commands of the manifest, the commands started by
-- the stages, and the exit code or the exception.
pub record Outcome : Type 0 where
  pub commands : Trace
  pub summaries : List Value
  pub manifests : List Command
  pub result : Result ℤ

-- An exception of the `finally` block replaces one that left the `try`.
abbrev pub ending : Option Exception → Bool → Result ℤ
ending none good = ok (if good then pos 0 else pos 1)
ending (some e) good = err e

-- A code of the manifest's command other than 0 fails the run, and the summary is written again;
-- the last argument is what writing it gives.
unfoldable pub second_summary :
    Outside → Bool → Progress → Value → Command → Result (Unit {0}) → Outcome
second_summary outside quick p first command (err e) = record {
  commands = p.commands_executed;
  summaries = first ∷ [];
  manifests = command ∷ [];
  result = err e;
}
second_summary outside quick p first command (ok _) = record {
  commands = p.commands_executed;
  summaries = first ∷ write_summary (outside.now true) false quick p.results ∷ [];
  manifests = command ∷ [];
  result = ending p.pending false;
}

-- Behind the manifest's command, by what it returned.
unfoldable pub after_manifest : Outside → Bool → Progress → Value → Command → Result ℤ → Outcome
unfolding second_summary
after_manifest outside quick p first command (err e) = record {
  commands = p.commands_executed;
  summaries = first ∷ [];
  manifests = command ∷ [];
  result = err e;
}
after_manifest outside quick p first command (ok code) =
    if int_eq code (pos 0)
    then record {
      commands = p.commands_executed;
      summaries = first ∷ [];
      manifests = command ∷ [];
      result = ending p.pending p.good;
    }
    else second_summary outside quick p first command (outside.summary_error true)

-- Behind the first writing of the summary, by what it gave.
unfoldable pub first_summary : Outside → Place → Bool → Progress → Result (Unit {0}) → Outcome
unfolding after_manifest
first_summary outside place quick p (err e) = record {
  commands = p.commands_executed;
  summaries = [];
  manifests = [];
  result = err e;
}
first_summary outside place quick p (ok _) =
    let command = manifest_command place p.good p.commands_executed (not quick) in
    after_manifest outside quick p (write_summary (outside.now false) p.good quick p.results)
      command (outside.manifest command)

-- The `finally` block and the end of `main`.
unfoldable pub conclude : Outside → Place → Bool → Progress → Outcome
unfolding first_summary
conclude outside place quick p = first_summary outside place quick p (outside.summary_error false)

unfoldable pub main : Outside → Place → Args → Outcome
unfolding planned_stages run_stages conclude
main outside place args =
    conclude outside place args.quick (run_stages outside [] [] (planned_stages place args))
