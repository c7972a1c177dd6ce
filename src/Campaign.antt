-- ===== src/Campaign.antt =====
-- What tools/run_fdir_campaign.py and tools/run_monte_carlo.py share: the child process that runs
-- a scenario, the generated scenario as an object, and the path of the report.
pub mod Fdir
pub mod MonteCarlo
pub mod Ready
mod Tests
use astra_sim_fsw.Base.{
  ℕ, Bool, true, false, ◌+◌, List, [], ◌∷◌, ◌++◌, ◌≡◌, ◌↔◌, refl, inl, inr, Bool-cases, ==_iff,
  ◌==◌, Text, codes, starts_with, text_eq, length, drop, Result, ok, err, value_error,
  if◌then◌else◌,
}
use astra_sim_fsw.Base.Int.{ℤ, pos, int_eq}
use astra_sim_fsw.Base.Json.{Fields}

-- `error.stdout` of a `subprocess.TimeoutExpired`, which is bytes also where the call asks for
-- text.
pub data Captured : Type 0 where
  nothing : Captured
  text : Text → Captured
  bytes : List ℕ → Captured

-- The child process of a scenario, and its output.
pub data Child : Type 0 where
  finished : ℤ → Text → Child
  timed_out : Captured → Child

-- The system: the child started for the scenario that stands at a place of the campaign, and the
-- writing of the report. Either may raise.
pub record Outside : Type 0 where
  pub child : ℕ → Fields → Result Child
  pub write : Text → Text → Result (Unit {0})

-- `root / path`
unfoldable pub joined_path : Text → Text → Text
joined_path root path = if starts_with path (codes "/") then path else root ++ (codes "/" ++ path)

-- `path.relative_to(root)`, which raises on a path that does not lie under the root.
unfoldable pub relative_to : Text → Text → Result Text
relative_to root path =
    if text_eq path root
    then ok (codes ".")
    else if starts_with path (root ++ codes "/")
    then ok (drop (length root + 1) path)
    else err (value_error (codes "path is not in the subpath"))

-- A child that was started and returned 0.
abbrev pub is_passed : Result Child → Bool
is_passed (ok (finished code output)) = int_eq code (pos 0)
is_passed _ = false

-- `0 if failed == 0 else 1`
abbrev pub exit_code : ℕ → ℤ
exit_code failed = if failed == 0 then pos 0 else pos 1

pub exit_code-zero_iff : (failed : ℕ) → (ok (exit_code failed) ≡ ok (pos 0)) ↔ (failed ≡ 0)
exit_code-zero_iff failed = elim (Bool-cases (failed == 0)) [
  | inl same ↦ rw same (λ h. (==_iff failed 0).0 same, λ h. refl)
  | inr other ↦ rw other (λ h. absurd (cc (h)), λ h. absurd (cc (other, (==_iff failed 0).1 h)))
]
