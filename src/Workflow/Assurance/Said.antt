-- ===== src/Workflow/Assurance/Said.antt =====
-- tools/run_astra_os_assurance.py: what a summary and a command of the manifest say.
use astra_sim_fsw.Base.{
  Bool, List, [], ◌∷◌, ◌++◌, ◌≡◌, refl, some, Text, codes, text_eq, map, join, if◌then◌else◌,
}
use astra_sim_fsw.Base.Int.{pos, int_eq}
use astra_sim_fsw.Base.Json.{Value, bool, int, str, arr, obj, Fields, Items, get, values, items}
use astra_sim_fsw.Workflow.{Command, Trace, Place}
use astra_sim_fsw.Workflow.Assurance.{
  StageResult, passed, stage_fields, write_summary, test_command_words, manifest_command,
}

-- The words name the commands, each behind an option of its own.
abbrev pub Names : Trace → Command → Type 0
Names [] words = words ≡ []
Names (command ∷ commands) words =
    (rest : Command) × (words ≡ codes "--test-command" ∷ join (codes " ") command ∷ rest)
    × Names commands rest

abbrev pub status_word : Bool → Text
status_word good = if good then codes "passed" else codes "failed"

-- The command has the option of the status, and ends with the options that name the commands.
abbrev pub Says : Bool → Trace → Command → Type 0
Says good commands command =
    (before : Command) × (after : Command) × (words : Command) × (command
      ≡ before ++ (codes "--verification-status" ∷ status_word good ∷ after ++ words))
    × Names commands words

test_command_words-Names : (commands : Trace) → Names commands (test_command_words commands)
unfolding test_command_words
test_command_words-Names [] = refl
test_command_words-Names (command ∷ commands) =
    (test_command_words commands, refl, test_command_words-Names commands)

pub manifest_command-Says :
    (place : Place) (good : Bool) (commands : Trace) (sanitizers : Bool)
    → Says good commands (manifest_command place good commands sanitizers)
unfolding manifest_command
manifest_command-Says place good commands sanitizers = (
  _ ∷ _ ∷ _ ∷ _ ∷ [],
  _ ∷ _ ∷ _ ∷ _ ∷ _ ∷ (if sanitizers then codes "--sanitizers-enabled" ∷ [] else []),
  test_command_words commands,
  refl,
  test_command_words-Names commands,
)

-- The objects hold the stages: name, command, return code, and whether that is 0.
abbrev pub Describe : List StageResult → List Value → Type 0
Describe [] vs = vs ≡ []
Describe (r ∷ rs) vs =
    (d : Fields) × (rest : List Value) × (vs ≡ obj d ∷ rest)
    × (get (codes "name") d ≡ some (str r.name))
    × (get (codes "command") d ≡ some (arr (items (map str r.command))))
    × (get (codes "return_code") d ≡ some (int r.return_code))
    × (get (codes "passed") d ≡ some (bool (int_eq r.return_code (pos 0))))
    × Describe rs rest

-- The object holds the status, the mode and the stages.
abbrev pub Summarises : Bool → Bool → List StageResult → Value → Type 0
Summarises good quick results v =
    (d : Fields) × (stages : Items) × (v ≡ obj d)
    × (get (codes "overall_status") d ≡ some (str (status_word good)))
    × (get (codes "quick_mode") d ≡ some (bool quick))
    × (get (codes "stages") d ≡ some (arr stages))
    × Describe results (values stages)

stage_fields-Describe :
    (results : List StageResult) → Describe results (values (items (map stage_fields results)))
unfolding stage_fields passed get text_eq codes
stage_fields-Describe [] = refl
stage_fields-Describe (r ∷ rs) = (_, _, refl, refl, refl, refl, refl, stage_fields-Describe rs)

pub write_summary-Summarises :
    (now : Text) (good quick : Bool) (results : List StageResult)
    → Summarises good quick results (write_summary now good quick results)
unfolding write_summary get text_eq codes
write_summary-Summarises now good quick results =
    (_, _, refl, refl, refl, refl, stage_fields-Describe results)
