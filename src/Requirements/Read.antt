-- ===== src/Requirements/Read.antt =====
-- tools/check_requirements.py: the registered tests, the evidence reports and the scenario files.
use astra_sim_fsw.Base.{
  ℕ, zero, suc, ◌-◌, Bool, true, false, ◌&&◌, ◌||◌, List, [], ◌∷◌, ◌++◌, map, Option, none, some,
  Text, codes, split, starts_with, contains_text, lstrip_of, is_space, is_digit, leb, ltb, ◌==◌,
  length, drop, any, Result, ok, err, value_error, ◌>>=◌, if◌then◌else◌,
}
use astra_sim_fsw.Base.Dict.{Dict, insert, keys}
use astra_sim_fsw.Base.Json.{Value, arr, obj, get, values, str_of}
use astra_sim_fsw.Requirements.Report.{ScenarioEvidence, report_passed}

-- `[A-Za-z0-9_.+-]`
unfoldable pub is_test_char : ℕ → Bool
unfolding is_digit
is_test_char c =
    (leb b'A' c && leb c b'Z')
    || (leb b'a' c && leb c b'z')
    || is_digit c
    || c == b'_'
    || c == b'.'
    || c == b'+'
    || c == b'-'

-- What a text has behind a prefix.
behind : Text → Text → Option Text
behind prefix s = if starts_with s prefix then some (drop (length prefix) s) else none

-- The longest beginning of a text that the name of a test can have, with the rest.
unfoldable pub test_name : Text → Text × Text
test_name [] = ([], [])
test_name (c ∷ s) =
    let (name, rest) = test_name s in if is_test_char c then (c ∷ name, rest) else ([], c ∷ s)

some_name : Text × Text → Option (Text × Text)
some_name ([], rest) = none
some_name (d ∷ name, rest) = some (d ∷ name, rest)

-- A name behind at least one space.
unfoldable pub spaced_name : Text → Option (Text × Text)
unfolding test_name some_name
spaced_name [] = none
spaced_name (c ∷ s) = if is_space c then some_name (test_name (lstrip_of is_space s)) else none

-- The match of `REGISTERED_TEST_PATTERN` at the beginning of a text: the name and what follows.
unfoldable pub match_test : Text → Option (Text × Text)
unfolding behind spaced_name
match_test s = elim (behind (codes "add_test") s) [
  | none ↦ none
  | some s' ↦ elim (behind (codes "(") (lstrip_of is_space s')) [
    | none ↦ none
    | some s'' ↦ elim (behind (codes "NAME") (lstrip_of is_space s'')) [
      | none ↦ none
      | some s''' ↦ spaced_name s'''
    ]
  ]
]

-- `findall`: the first number is that of the characters that the last match still covers.
unfoldable pub find_tests : ℕ → Text → List Text
unfolding match_test
find_tests covered [] = []
find_tests (suc covered) (c ∷ s) = find_tests covered s
find_tests zero (c ∷ s) = elim (match_test (c ∷ s)) [
  | none ↦ find_tests zero s
  | some (name, rest) ↦ name ∷ find_tests (length s - length rest) s
]

unfoldable pub as_set : List Text → Dict (Unit {0})
as_set [] = []
as_set (name ∷ names) = insert name tt (as_set names)

-- `parse_registered_ctests`, from the text of the file where it exists.
unfoldable pub parse_registered_ctests : Text → Option (Result Text) → Result (List Text)
unfolding find_tests as_set
parse_registered_ctests path none = err (value_error (codes "CMake file does not exist: " ++ path))
parse_registered_ctests path (some read) =
    read >>= λ text. ok (keys (as_set (find_tests zero text)))

-- A part between two backticks that the pattern takes.
is_report : Text → Bool
is_report s = starts_with s (codes "reports/") && ltb (length (codes "reports/")) (length s)

-- The matches over the parts behind each backtick; the last part has none behind it, and the
-- backtick behind a match opens no other.
unfoldable pub quoted_reports : List Text → List Text
unfolding is_report
quoted_reports [] = []
quoted_reports (p ∷ []) = []
quoted_reports (p ∷ q ∷ parts) = elim (is_report p) [
  | true ↦ p ∷ quoted_reports parts
  | false ↦ quoted_reports (q ∷ parts)
]

unfoldable pub evidence_text_passed : Option Text → Bool
evidence_text_passed none = false
evidence_text_passed (some text) =
    contains_text (codes "Result: PASS") text
    || contains_text (codes "100% tests passed") text
    || contains_text (codes "overall_status\": \"passed") text

-- `files` is the text of a file by its path below the repository, where it is a file.
unfoldable pub evidence_report_passed : (Text → Option Text) → Text → Bool
unfolding quoted_reports evidence_text_passed
evidence_report_passed files evidence =
    any (λ p. evidence_text_passed (files p)) (quoted_reports (drop 1 (split b'`' evidence)))

unfoldable pub scenario_report_path : Text → Text
scenario_report_path name = codes "reports/scenario_" ++ (name ++ codes "_output.txt")

-- A file that the glob found: its path below the repository, its path as it is printed, its stem,
-- and what reading and parsing it gives; a YAML error stands as a ValueError.
pub record ScenarioFile : Type 0 where
  pub path : Text
  pub shown : Text
  pub stem : Text
  pub loaded : Result Value

-- `[str(requirement) for requirement in requirements]`
unfoldable pub requirement_texts : (Value → Text) → Text → Option Value → Result (List Text)
requirement_texts repr shown none = ok []
requirement_texts repr shown (some (arr items)) = ok (map (str_of repr) (values items))
requirement_texts repr shown (some v) =
    err (value_error (shown ++ codes ": requirements must be a list"))

unfoldable pub evidence_of : (Text → Option Text) → Text → Text → List Text → ScenarioEvidence
unfolding scenario_report_path
evidence_of files path name requirements = record {
  name = name;
  path = path;
  requirements = requirements;
  report_path = scenario_report_path name;
  passed = report_passed (files (scenario_report_path name));
}

unfoldable pub scenario_name : (Value → Text) → Text → Option Value → Text
scenario_name repr stem none = stem
scenario_name repr stem (some v) = str_of repr v

unfoldable pub load_scenario :
    (Value → Text) → (Text → Option Text) → ScenarioFile → Value → Result ScenarioEvidence
unfolding requirement_texts evidence_of scenario_name
load_scenario repr files file (obj contents) =
    requirement_texts repr file.shown (get (codes "requirements") contents) >>= λ requirements. ok (
      evidence_of files file.path (scenario_name repr file.stem (get (codes "name") contents))
        requirements)
load_scenario repr files file v =
    err (value_error (file.shown ++ codes ": scenario root must be a mapping"))

-- The loop of `load_scenarios`, over the sorted files.
unfoldable pub load_all :
    (Value → Text) → (Text → Option Text) → List ScenarioFile → Result (List ScenarioEvidence)
unfolding load_scenario
load_all repr files [] = ok []
load_all repr files (file ∷ rest) = do
  contents ← file.loaded
  scenario ← load_scenario repr files file contents
  scenarios ← load_all repr files rest
  ok (scenario ∷ scenarios)

-- `load_scenarios`, from the files of the directory where it exists.
unfoldable pub load_scenarios :
    (Value → Text)
    → (Text → Option Text)
    → Text
    → Option (List ScenarioFile)
    → Result (List ScenarioEvidence)
unfolding load_all
load_scenarios repr files path none =
    err (value_error (codes "scenario directory does not exist: " ++ path))
load_scenarios repr files path (some found) = load_all repr files found
