-- ===== src/Campaign/MonteCarlo/Run.antt =====
-- tools/run_monte_carlo.py: the scenario of a trial, the trial, the report and `main`.
use astra_sim_fsw.Base.{
  ℕ, zero, suc, ◌+◌, ◌-◌, Bool, false, not, List, Exception, [], ◌∷◌, ◌++◌, Option, none, some,
  Text, codes, decimal, zero_padded, starts_with, drop, length, map, filter, count_if, join,
  rstrip_of, is_space, Result, ok, err, ◌>>=◌, ◌==◌, if◌then◌else◌,
}
use astra_sim_fsw.Base.Int.{ℤ, pos, negsuc, int_eq, int_text}
use astra_sim_fsw.Base.Json.{object, Value, int, str, arr, obj, Fields, items}
use astra_sim_fsw.Campaign.{
  nothing, text, bytes, Child, finished, timed_out, Outside, joined_path, relative_to, exit_code,
}
use astra_sim_fsw.Campaign.MonteCarlo.{Draws, choice}

unfoldable pub optional_loop : Text → Option ℕ → List (Text × Value)
optional_loop key none = []
optional_loop key (some n) = (key, int (pos n)) ∷ []

unfoldable pub trial_name : Draws → ℕ → Text
unfolding choice
trial_name draws trial_id =
    codes "monte_carlo_trial_" ++ (zero_padded 3 trial_id ++ (codes "_" ++ (choice draws).suffix))

-- `make_case`
unfoldable pub make_case : Draws → ℕ → Fields
unfolding choice trial_name optional_loop
make_case draws trial_id =
    let case = choice draws in
    object (
      (codes "name", str (trial_name draws trial_id))
      ∷ (codes "description", str case.description)
      ∷ (codes "requirements", arr (items (map str case.requirements)))
      ∷ (codes "command_port", int (pos draws.command_port))
      ∷ (codes "telemetry_port", int (pos (draws.command_port + 1)))
      ∷ (codes "loop_count", int (pos case.loop_count))
      ∷ (codes "steps", arr (items (map obj case.steps)))
      ∷ (optional_loop (codes "sensor_timeout_loop") case.sensor_timeout_loop
          ++ optional_loop (codes "watchdog_timeout_loop") case.watchdog_timeout_loop))

-- An entry of `trials`: what the report reads of the scenario, and the two results.
pub record Trial : Type 0 where
  pub name : Text
  pub requirements : List Text
  pub passed : Bool
  pub output : Text

-- The parsed arguments. Of the time limit there is whether it is positive, and its `:.1f` format.
pub record Args : Type 0 where
  pub trials : ℤ
  pub seed : ℤ
  pub output : Text
  pub build_dir : Text
  pub timeout_positive : Bool
  pub timeout_text : Text

with_partial : Text → Text → Text
with_partial message [] = message
with_partial message (c ∷ partial) = message ++ (codes "\nPartial output:\n" ++ (c ∷ partial))

timeout_message : Text → Text
timeout_message limit =
    codes "Trial timed out after "
    ++ (limit
        ++ codes " seconds. This is recorded as a failed trial rather than crashing the campaign.")

-- What `run_trial` returns; `decode` is `decode(errors="replace")`.
unfoldable pub run_trial : (List ℕ → Text) → Text → Child → Bool × Text
unfolding with_partial timeout_message
run_trial decode limit (finished code output) = (int_eq code (pos 0), output)
run_trial decode limit (timed_out nothing) = (false, timeout_message limit)
run_trial decode limit (timed_out (text partial)) =
    (false, with_partial (timeout_message limit) partial)
run_trial decode limit (timed_out (bytes [])) = (false, timeout_message limit)
run_trial decode limit (timed_out (bytes (b ∷ partial))) =
    (false, with_partial (timeout_message limit) (decode (b ∷ partial)))

-- The loop of `main`, for a number of trials from a first one; the children are numbered from 0.
unfoldable pub run_trials :
    Outside → (List ℕ → Text) → (ℕ → Draws) → Text → ℕ → ℕ → Result (List Trial)
run_trials outside decode rng limit trial_id zero = ok []
run_trials outside decode rng limit trial_id (suc n) = do
  let draws = rng trial_id
  child ← outside.child (trial_id - 1) (make_case draws trial_id)
  let result = run_trial decode limit child
  trials ← run_trials outside decode rng limit (1 + trial_id) n
  ok (
      record {
        name = trial_name draws trial_id;
        requirements = (choice draws).requirements;
        passed = result.0;
        output = result.1;
      }
      ∷ trials)

abbrev pub status_text : Bool → Text
status_text passed = if passed then codes "PASS" else codes "FAIL"

-- `s.replace(p, "", 1)`
unfoldable pub without_first : Text → Text → Text
without_first p [] = []
without_first p (c ∷ s) =
    let rest = without_first p s in
    if starts_with (c ∷ s) p then drop (length p) (c ∷ s) else c ∷ rest

unfoldable pub trial_line : Trial → Text
unfolding without_first
trial_line t =
    codes "| "
    ++ (t.name
        ++ (codes " | "
            ++ (without_first (codes "monte_carlo_trial_") t.name
                ++ (codes " | "
                    ++ (status_text t.passed
                        ++ (codes " | " ++ (join (codes ", ") t.requirements ++ codes " |")))))))

unfoldable pub failure_log : List Trial → List Text
failure_log [] = []
failure_log (t ∷ ts) =
    (codes "### " ++ t.name)
    ∷ []
    ∷ codes "```text"
    ∷ rstrip_of is_space t.output
    ∷ codes "```"
    ∷ []
    ∷ failure_log ts

unfoldable pub failure_logs : List Trial → List Text
unfolding failure_log
failure_logs [] = []
failure_logs (t ∷ ts) = [] ∷ codes "## Failure Logs" ∷ [] ∷ failure_log (t ∷ ts)

-- `len(trials) - passed`
unfoldable pub failed : List Trial → ℕ
failed trials = length trials - count_if (λ t. t.passed) trials

-- `write_report`: the text of the report.
unfoldable pub write_report : ℤ → List Trial → Text
unfolding failed trial_line failure_logs
write_report seed trials =
    join (codes "\n") (
      codes "# Monte Carlo Regression Report"
      ∷ []
      ∷ (codes "Seed: `" ++ (int_text seed ++ codes "`"))
      ∷ (codes "Trials: `" ++ (decimal (length trials) ++ codes "`"))
      ∷ (codes "Passed: `" ++ (decimal (count_if (λ t. t.passed) trials) ++ codes "`"))
      ∷ (codes "Failed: `" ++ (decimal (failed trials) ++ codes "`"))
      ∷ (codes "Result: " ++ status_text (failed trials == 0))
      ∷ []
      ∷ codes "## Trial Summary"
      ∷ []
      ∷ codes "| Trial | Scenario Type | Result | Requirements |"
      ∷ codes "|---|---|---|---|"
      ∷ (map trial_line trials ++ failure_logs (filter (λ t. not t.passed) trials)))
    ++ codes "\n"

-- What a run leaves: the trials of the report that was written, its text, the message of a
-- `SystemExit`, and the exit code.
pub record Outcome : Type 0 where
  pub trials : List Trial
  pub report : Option Text
  pub message : Option Text
  pub result : Result ℤ

-- `raise SystemExit(message)`, which exits with 1.
abbrev pub refused : Text → Outcome
refused message = record { trials = []; report = none; message = some message; result = ok (pos 1) }

abbrev pub raised : Exception → Outcome
raised e = record { trials = []; report = none; message = none; result = err e }

-- Behind the writing of the report.
unfoldable pub after_report : Text → Text → Text → List Trial → Result (Unit {0}) → Outcome
unfolding failed
after_report root path written trials (err e) = raised e
after_report root path written trials (ok _) = record {
  trials = trials;
  report = some written;
  message = none;
  result = relative_to root path >>= λ shown. ok (exit_code (failed trials));
}

unfoldable pub conclude : Outside → Text → Args → Result (List Trial) → Outcome
unfolding after_report
conclude outside root args (err e) = raised e
conclude outside root args (ok trials) =
    let path = joined_path root args.output in
    let written = write_report args.seed trials in
    after_report root path written trials (outside.write path written)

-- The campaign of a positive number of trials.
unfoldable pub campaign : Outside → (List ℕ → Text) → (ℕ → Draws) → Text → Args → ℕ → Outcome
unfolding conclude
campaign outside decode rng root args n =
    conclude outside root args (run_trials outside decode rng args.timeout_text 1 n)

-- `main`
unfoldable pub main : Outside → (List ℕ → Text) → (ℕ → Draws) → Text → Args → Outcome
unfolding campaign
main outside decode rng root args = elim args.trials [
  | negsuc n ↦ refused (codes "ERROR: --trials must be positive")
  | pos n ↦
      if n == 0
      then refused (codes "ERROR: --trials must be positive")
      else if args.timeout_positive
      then campaign outside decode rng root args n
      else refused (codes "ERROR: --trial-timeout-s must be positive")
]
