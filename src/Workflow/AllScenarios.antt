-- ===== src/Workflow/AllScenarios.antt =====
-- tools/run_all_scenarios.py: the verification stages in their order.
pub mod Main
mod Plan
mod Performed
mod Scenarios
mod Exit
mod Tests
use astra_sim_fsw.Base.{
  ℕ, ◌+◌, ◌-◌, Bool, true, false, List, [], ◌∷◌, ◌++◌, Option, none, some, Text, codes, length, map,
  count_if, Result, ok, err, ◌>>=◌, ◌==◌, decimal, if◌then◌else◌,
}
use astra_sim_fsw.Base.Int.{ℤ, pos, int_eq, int_text}
use astra_sim_fsw.Base.Sort.{sorted}
use astra_sim_fsw.Workflow.{Command, Trace, World, Place, path_in, Ran, run}

-- The parsed arguments.
pub record Args : Type 0 where
  pub build_dir : Text
  pub skip_build : Bool
  pub skip_requirements : Bool
  pub skip_protocol_check : Bool
  pub skip_fdir_campaign : Bool
  pub skip_assistant_eval : Bool
  pub skip_monte_carlo : Bool
  pub skip_pi_package : Bool
  pub monte_carlo_trials : ℤ
  pub monte_carlo_seed : ℤ
  pub pattern : Option Text

-- A nonzero code is passed on.
unfoldable pub code_of : Result ℤ → Result ℤ
code_of (err e) = err e
code_of (ok code) = if int_eq code (pos 0) then ok (pos 0) else ok code

unfoldable pub run_command : World → Trace → Command → Ran
unfolding run code_of
run_command world trace command =
    let (after, returned) = run world trace command in (after, code_of returned)

unfoldable pub build_command : Place → Command
unfolding path_in
build_command place = codes "bash" ∷ path_in place (codes "ci/run_local_tests.sh") ∷ []

unfoldable pub run_build_and_unit_tests : World → Place → Trace → Ran
unfolding run build_command code_of
run_build_and_unit_tests world place trace =
    let (after, returned) = run world trace (build_command place) in (after, code_of returned)

-- Paths are compared part by part: the slash comes before every other character.
unfoldable pub path_key : Text → Text
path_key path = map (λ c. if c == b'/' then 0 else c) path

-- `glob` is `SCENARIOS_DIR.glob`, with the paths from `REPO_ROOT`; it raises on a pattern that it
-- does not take.
unfoldable pub scenario_files : (Text → Result (List Text)) → Option Text → Result (List Text)
scenario_files glob (some (c ∷ pattern)) =
    glob (c ∷ pattern) >>= λ paths. ok (sorted path_key paths)
scenario_files glob _ = glob (codes "*.yaml") >>= λ paths. ok (sorted path_key paths)

unfoldable pub scenario_command : Place → Text → Text → Command
unfolding path_in
scenario_command place build_dir scenario =
    place.executable
    ∷ path_in place (codes "tools/run_scenario.py")
    ∷ path_in place scenario
    ∷ codes "--build-dir"
    ∷ build_dir
    ∷ []

-- The loop of `run_scenarios`: a scenario that fails does not end it.
unfoldable pub scenario_results :
    World → Place → Text → Trace → List Text → Trace × Result (List (Text × ℤ))
unfolding run
scenario_results world place build_dir trace [] = (trace, ok [])
scenario_results world place build_dir trace (scenario ∷ scenarios) =
    let (after, returned) = run world trace (scenario_command place build_dir scenario) in
    elim returned [
      | err e ↦ (after, err e)
      | ok code ↦
          let (last, results) = scenario_results world place build_dir after scenarios in
          (last, results >>= λ others. ok ((scenario, code) ∷ others))
    ]

unfoldable pub passed : List (Text × ℤ) → ℕ
passed results = count_if (λ r. int_eq r.1 (pos 0)) results

unfoldable pub failed : List (Text × ℤ) → ℕ
unfolding passed
failed results = length results - passed results

-- The printed summary.
unfoldable pub summary : List (Text × ℤ) → List Text
unfolding passed failed
summary results =
    map (λ r. (if int_eq r.1 (pos 0) then codes "PASS" else codes "FAIL") ++ (codes ": " ++ r.0))
      results
    ++ ([]
        ∷ (codes "Passed: " ++ decimal (passed results))
        ∷ (codes "Failed: " ++ decimal (failed results))
        ∷ (codes "Total:  " ++ decimal (length results))
        ∷ [])

unfoldable pub run_scenarios :
    World → Place → (Text → Result (List Text)) → Option Text → Text → Trace → Ran
unfolding failed
run_scenarios world place glob pattern build_dir trace = elim (scenario_files glob pattern) [
  | err e ↦ (trace, err e)
  | ok scenarios ↦ elim scenarios [
    | [] ↦ (trace, ok (pos 1))
    | first ∷ others ↦
        let (after, results) = scenario_results world place build_dir trace (first ∷ others) in
        (after, results >>= λ all. ok (if failed all == 0 then pos 0 else pos 1))
  ]
]

-- `if code != 0: return code`
unfoldable pub and_then : Ran → (Trace → Ran) → Ran
and_then (trace, err e) next = (trace, err e)
and_then (trace, ok code) next = if int_eq code (pos 0) then next trace else (trace, ok code)

-- `if not skip`
unfoldable pub unless : Bool → (Trace → Ran) → Trace → Ran
unless true action trace = (trace, ok (pos 0))
unless false action trace = action trace
