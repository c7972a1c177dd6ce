-- ===== src/Provenance.antt =====
-- tools/generate_baseline_manifest.py: the probes and the evidence inputs.
pub mod Main
pub mod Listed
mod Tests
use astra_sim_fsw.Base.{
  ℕ, Bool, true, false, not, ◌&&◌, ◌||◌, List, [], ◌∷◌, ◌++◌, Option, none, some, Text, codes,
  strip, filter, ◌==◌, leb, Result, ok, err, Exception, os_error, ◌>>=◌, if◌then◌else◌,
}
use astra_sim_fsw.Base.Int.{ℤ, pos, int_eq}
use astra_sim_fsw.Base.Sort.{sorted}
use astra_sim_fsw.Repository.{unique}
use astra_sim_fsw.Workflow.AllScenarios.{path_key}

pub record Completed : Type 0 where
  pub return_code : ℤ
  pub stdout : Text
  pub stderr : Text

-- The record that `run_probe` returns; `error` is there only where the process failed to run.
pub record Probe : Type 0 where
  pub command : List Text
  pub available : Bool
  pub return_code : Option ℤ
  pub output : Option Text
  pub error : Option Text

-- The parts of the host that are read once.
pub record Host : Type 0 where
  pub system : Text
  pub release : Text
  pub machine : Text
  pub platform : Text
  pub python : Text

-- What stands outside: `which` finds a program, `run` is the process, where a timeout stands as an
-- OSError; the environment; the files below the repository with their sizes and digests; what the
-- status of the repository gave; the clock and the host; what making the directory of the output
-- and writing it gives, and the path of the output below the repository.
pub record Outside : Type 0 where
  pub which : Text → Bool
  pub run : List Text → Result Completed
  pub environ : Text → Option Text
  pub glob : Text → Result (List Text)
  pub is_file : Text → Bool
  pub size : Text → Result ℕ
  pub sha256 : Text → Result Text
  pub status_code : ℤ
  pub status_stderr : Text
  pub status_lines : List Text
  pub root : Text
  pub now : Text
  pub host : Host
  pub made : Result (Unit {0})
  pub written : Result (Unit {0})
  pub shown : Result Text

-- `stdout or stderr`
or_else : Text → Text → Text
or_else [] stderr = stderr
or_else stdout stderr = stdout

probe_of : List Text → Result Completed → Result Probe
unfolding or_else
probe_of command (ok completed) = ok (record {
  command = command;
  available = true;
  return_code = some completed.return_code;
  output = some (strip (or_else completed.stdout completed.stderr));
  error = none;
})
probe_of command (err (os_error m)) = ok (record {
  command = command;
  available = true;
  return_code = none;
  output = none;
  error = some m;
})
probe_of command (err e) = err e

unfoldable pub run_probe : Outside → Text → List Text → Result Probe
unfolding probe_of
run_probe outside program arguments = elim (outside.which program) [
  | true ↦ probe_of (program ∷ arguments) (outside.run (program ∷ arguments))
  | false ↦ ok (record {
    command = program ∷ arguments;
    available = false;
    return_code = none;
    output = none;
    error = none;
  })
]

-- The characters at which `splitlines` breaks.
is_line_break : ℕ → Bool
is_line_break c =
    (leb 10 c && leb c 13) || (leb 28 c && leb c 30) || c == 133 || c == 8232 || c == 8233

-- `text.splitlines()[0]` of a text that is not empty.
first_line : Text → Text
unfolding is_line_break
first_line [] = []
first_line (c ∷ s) = let rest = first_line s in if is_line_break c then [] else c ∷ rest

line_of : Option ℤ → Option Text → Option Text
unfolding first_line
line_of (some code) (some (c ∷ s)) = if int_eq code (pos 0) then some (first_line (c ∷ s)) else none
line_of code output = none

unfoldable pub git_text : Outside → List Text → Result (Option Text)
unfolding line_of
git_text outside arguments = run_probe outside (codes "git") arguments >>= λ probe.
    ok (line_of probe.return_code probe.output)

abbrev pub glob_patterns : List Text
glob_patterns =
    codes "*.md"
    ∷ codes "fsw/include/astra/*.hpp"
    ∷ codes "fsw/src/*.cpp"
    ∷ codes "fsw/tests/*.cpp"
    ∷ codes "fsw/fuzz/*.cpp"
    ∷ codes "config/*.json"
    ∷ codes "scenarios/*.yaml"
    ∷ codes "ci/*.sh"
    ∷ codes "tools/*.py"
    ∷ codes ".github/workflows/*.yml"
    ∷ codes "docs/*.md"
    ∷ codes "docs/*.csv"
    ∷ []

-- `candidates.extend(REPO_ROOT.glob(pattern))` for each pattern.
unfoldable pub extend_all : (Text → Result (List Text)) → List Text → List Text → Result (List Text)
extend_all glob candidates [] = ok candidates
extend_all glob candidates (pattern ∷ patterns) =
    glob pattern >>= λ found. extend_all glob (candidates ++ found) patterns

unfoldable pub candidates : Outside → Result (List Text)
unfolding extend_all
candidates outside =
    extend_all outside.glob (codes "CMakeLists.txt" ∷ codes ".gitignore" ∷ []) glob_patterns

unfoldable pub evidence_inputs : Outside → Result (List Text)
evidence_inputs outside =
    candidates outside >>= λ found. ok (sorted path_key (unique (filter outside.is_file found)))

pub record FileRecord : Type 0 where
  pub path : Text
  pub size_bytes : ℕ
  pub sha256 : Text

abbrev pub file_record : Text → ℕ → Text → FileRecord
file_record path size_bytes sha256 = record {
  path = path;
  size_bytes = size_bytes;
  sha256 = sha256;
}

-- The loop of `file_manifest`.
unfoldable pub records_of : Outside → List Text → Result (List FileRecord)
records_of outside [] = ok []
records_of outside (path ∷ paths) = do
  size ← outside.size path
  digest ← outside.sha256 path
  rest ← records_of outside paths
  ok (file_record path size digest ∷ rest)

unfoldable pub file_manifest : Outside → Result (List FileRecord)
unfolding evidence_inputs records_of
file_manifest outside = evidence_inputs outside >>= records_of outside
