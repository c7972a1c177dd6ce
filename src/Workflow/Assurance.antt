-- ===== src/Workflow/Assurance.antt =====
-- tools/run_astra_os_assurance.py: the stages, the summary and the manifest command.
pub mod Main
mod Said
mod Ran
mod Concluded
mod Recorded
mod Pending
mod Tests
use astra_sim_fsw.Base.{
  ℕ, Bool, true, false, ◌&&◌, ◌||◌, List, [], ◌∷◌, ◌++◌, Text, codes, map, strip_of, leb, join,
  ◌==◌, Exception, Result, ok, err, os_error, ◌>>=◌, if◌then◌else◌,
}
use astra_sim_fsw.Base.Int.{ℤ, pos, int_eq}
use astra_sim_fsw.Base.Json.{
  Value, bool, int, str, arr, obj, Fields, end, field, Items, nil, cons, items,
}
use astra_sim_fsw.Workflow.{Command, Trace, Place, path_in}

pub record StageResult : Type 0 where
  pub name : Text
  pub command : Command
  pub return_code : ℤ
  pub started_at_utc : Text
  pub finished_at_utc : Text
  pub log_path : Text

unfoldable pub passed : StageResult → Bool
passed result = int_eq result.return_code (pos 0)

-- `isalnum` of a character below 128; the names of the stages have no others.
unfoldable pub is_alnum : ℕ → Bool
is_alnum c = (leb b'0' c && leb c b'9') || (leb b'A' c && leb c b'Z') || (leb b'a' c && leb c b'z')

unfoldable pub safe_stage_name : Text → Text
unfolding is_alnum
safe_stage_name name = strip_of (λ c. c == b'_') (map (λ c. if is_alnum c then c else b'_') name)

-- A planned stage: its name, its command and what it adds to the environment.
pub record Planned : Type 0 where
  pub name : Text
  pub command : Command
  pub environment : List (Text × Text)

-- What a process that was started and read to its end gives.
pub record Completed : Type 0 where
  pub return_code : ℤ
  pub started_at_utc : Text
  pub finished_at_utc : Text

-- The rest of the system: what a stage's process does behind the commands started before it, or
-- the exception that starting it or reading its output raises; what the command of the manifest
-- does; the clock, and the error of writing the summary for the first and the second time.
pub record Outside : Type 0 where
  pub process : Trace → Planned → Result Completed
  pub manifest : Command → Result ℤ
  pub now : Bool → Text
  pub summary_error : Bool → Result (Unit {0})

unfoldable pub result_of : Planned → Completed → StageResult
unfolding safe_stage_name
result_of stage done = record {
  name = stage.name;
  command = stage.command;
  return_code = done.return_code;
  started_at_utc = done.started_at_utc;
  finished_at_utc = done.finished_at_utc;
  log_path = codes "reports/latest/" ++ (safe_stage_name stage.name ++ codes ".log");
}

unfoldable pub run_stage : Outside → Trace → Planned → Result StageResult
unfolding result_of
run_stage outside trace stage = outside.process trace stage >>= λ done. ok (result_of stage done)

-- `overall_status`: "passed" or "failed".
abbrev pub status_text : Bool → Text
status_text good = if good then codes "passed" else codes "failed"

unfoldable pub stage_fields : StageResult → Value
unfolding passed
stage_fields result = obj (
    field (codes "name") (str result.name) (
      field (codes "command") (arr (items (map str result.command))) (
        field (codes "return_code") (int result.return_code) (
          field (codes "started_at_utc") (str result.started_at_utc) (
            field (codes "finished_at_utc") (str result.finished_at_utc) (
              field (codes "log_path") (str result.log_path)
                (field (codes "passed") (bool (passed result)) end)))))))

-- The object that `write_summary` writes, by the time, the status, the mode and the results.
unfoldable pub write_summary : Text → Bool → Bool → List StageResult → Value
unfolding stage_fields
write_summary now good quick results = obj (
    field (codes "schema") (str (codes "astra-os.assurance-summary.v1")) (
      field (codes "generated_at_utc") (str now) (
        field (codes "overall_status") (str (status_text good)) (
          field (codes "quick_mode") (bool quick)
            (field (codes "stages") (arr (items (map stage_fields results))) end)))))

unfoldable pub test_command_words : Trace → Command
test_command_words [] = []
test_command_words (command ∷ commands) =
    codes "--test-command" ∷ join (codes " ") command ∷ test_command_words commands

-- The command of `generate_manifest`.
unfoldable pub manifest_command : Place → Bool → Trace → Bool → Command
unfolding path_in test_command_words
manifest_command place good commands sanitizers =
    place.executable
    ∷ path_in place (codes "tools/generate_baseline_manifest.py")
    ∷ codes "--output"
    ∷ path_in place (codes "reports/latest/baseline_manifest.json")
    ∷ codes "--verification-status"
    ∷ status_text good
    ∷ codes "--build-type"
    ∷ codes "Debug"
    ∷ codes "--warnings-as-errors"
    ∷ codes "--note"
    ∷ codes "Generated by tools/run_astra_os_assurance.py."
    ∷ ((if sanitizers then codes "--sanitizers-enabled" ∷ [] else [])
        ++ test_command_words commands)
