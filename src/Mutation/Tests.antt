-- ===== src/Mutation/Tests.antt =====
-- A mutation that the tests kill.
use astra_sim_fsw.Base.{◌++◌, ◌≡◌, refl, Text, codes, starts_with, ok}
use astra_sim_fsw.Base.Int.{pos}
use astra_sim_fsw.Mutation.{
  original, mutated, count_from, replace_first, apply_mutation, Toolchain, verdict, main,
}
use astra_sim_fsw.Mutation.Guard.{IsReplaced, IsKilled, main-IsKilled}

abbrev content : Text
content = codes "x;" ++ (original ++ codes "return false;}")

abbrev run : Text → Toolchain
run t = record { configure = pos 0; build = pos 0; test = pos 8 }

killed : main run content ≡ ok (pos 0)
unfolding main verdict apply_mutation count_from replace_first starts_with codes
killed = refl

main-IsKilled_example : (t : Text) × IsReplaced original mutated content t × IsKilled (run t)
main-IsKilled_example = main-IsKilled run content killed
