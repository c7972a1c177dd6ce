-- ===== src/Workflow.antt =====
-- The processes that tools/run_all_scenarios.py and tools/run_astra_os_assurance.py start.
pub mod AllScenarios
pub mod Assurance
use astra_sim_fsw.Base.{List, [], ◌∷◌, ◌++◌, Text, codes, Result, ok, err, if◌then◌else◌}
use astra_sim_fsw.Base.Int.{ℤ, pos, int_eq}

-- The words of a command, and the commands started so far in their order.
abbrev pub Command : Type 0
Command = List Text

abbrev pub Trace : Type 0
Trace = List Command

-- The other programs: what a command returns, by what was started before it, or the `OSError` of
-- a command that cannot be started.
abbrev pub World : Type 0
World = Trace → Command → Result ℤ

-- `sys.executable` and `REPO_ROOT`
pub record Place : Type 0 where
  pub executable : Text
  pub root : Text

-- `str(REPO_ROOT / name)`
unfoldable pub path_in : Place → Text → Text
path_in place name = place.root ++ (codes "/" ++ name)

-- What a function leaves: the commands started, and the code that it returns.
abbrev pub Ran : Type 0
Ran = Trace × Result ℤ

-- `subprocess.run(command)`
unfoldable pub run : World → Trace → Command → Ran
run world trace command = (trace ++ (command ∷ []), world trace command)
