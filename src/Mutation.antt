-- ===== src/Mutation.antt =====
-- tools/run_controlled_mutation.py: the mutation of the checksum guard, and the verdict on it.
pub mod Guard
mod Tests
use astra_sim_fsw.Base.{
  ℕ, zero, suc, ◌+◌, ◌-◌, Bool, List, [], ◌∷◌, ◌++◌, Text, codes, starts_with, decimal, length,
  drop, ◌==◌, if◌then◌else◌, Result, ok, err, runtime_error, ◌>>=◌,
}
use astra_sim_fsw.Base.Int.{ℤ, pos, int_eq}

abbrev pub original : Text
original = codes "if (actual_crc != expected_crc) {"

abbrev pub mutated : Text
mutated = codes "if (actual_crc != expected_crc && bytes.empty()) {"

-- `s.count(pattern)`, without overlaps: `skip` characters still belong to the last match.
unfoldable pub count_from : Text → ℕ → Text → ℕ
count_from pattern skip [] = 0
count_from pattern (suc skip) (c ∷ s) = count_from pattern skip s
count_from pattern zero (c ∷ s) =
    let matched = count_from pattern (length pattern - 1) s in
    let other = count_from pattern 0 s in if starts_with (c ∷ s) pattern then 1 + matched else other

-- `s.replace(pattern, new, 1)`
unfoldable pub replace_first : Text → Text → Text → Text
replace_first pattern new [] = []
replace_first pattern new (c ∷ s) =
    let rest = replace_first pattern new s in
    if starts_with (c ∷ s) pattern then new ++ drop (length pattern) (c ∷ s) else c ∷ rest

-- `apply_mutation`, from the content of the target to its new content.
unfoldable pub apply_mutation : Text → Result Text
apply_mutation content =
    let count = count_from original 0 content in
    if count == 1
    then ok (replace_first original mutated content)
    else err (
        runtime_error (
          codes "Expected exactly one CRC guard to mutate, found "
          ++ (decimal count ++ codes "; target may have changed.")))

-- The return codes of the three commands.
pub record Toolchain : Type 0 where
  pub configure : ℤ
  pub build : ℤ
  pub test : ℤ

-- `main` behind the mutation: the exit code.
unfoldable pub verdict : Toolchain → ℤ
verdict tools =
    if int_eq tools.configure (pos 0)
    then if int_eq tools.build (pos 0)
      then if int_eq tools.test (pos 0) then pos 1 else pos 0
      else tools.build
    else tools.configure

-- `main`, where the return codes depend on the mutated content.
unfoldable pub main : (Text → Toolchain) → Text → Result ℤ
main run content = apply_mutation content >>= λ changed. ok (verdict (run changed))
