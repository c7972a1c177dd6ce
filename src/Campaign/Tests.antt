-- ===== src/Campaign/Tests.antt =====
-- tools/run_fdir_campaign.py and tools/run_monte_carlo.py on small runs.
use astra_sim_fsw.Base.{
  ℕ, ◌==◌, true, [], ◌∷◌, ◌≡◌, ◌↔◌, refl, some, Text, codes, zero_padded, zeros, Result, ok, err,
  value_error, type_error, length, decimal, decimal_loop, starts_with, text_eq, if◌then◌else◌,
}
use astra_sim_fsw.Base.Int.{pos}
use astra_sim_fsw.Campaign.{
  bytes, Child, finished, timed_out, Outside, joined_path, relative_to, is_passed,
}
use astra_sim_fsw.Campaign.Ready.{Ready}
use astra_sim_fsw.Campaign.Fdir
use astra_sim_fsw.Campaign.Fdir.{
  fault_cases, scenario_for, run_cases, run_case, case_result, timeout_text,
}
use astra_sim_fsw.Campaign.Fdir.Exit.{is_recorded, Children, main-Children}
use astra_sim_fsw.Campaign.MonteCarlo.{Draws}
use astra_sim_fsw.Campaign.MonteCarlo.Run
use astra_sim_fsw.Campaign.MonteCarlo.Run.{Args, without_first, write_report}
use astra_sim_fsw.Campaign.MonteCarlo.Exit.{Passing, main-Passing}

abbrev root : Text
root = codes "/repo"

abbrev outside_of : (ℕ → Result Child) → Outside
outside_of child = record { child = λ i s. child i; write = λ path written. ok tt }

-- The third child times out with captured bytes.
abbrev third_hangs : ℕ → Result Child
third_hangs i = ok (if i == 2 then timed_out (bytes (b'x' ∷ [])) else finished (pos 0) [])

abbrev all_pass : ℕ → Result Child
all_pass i = ok (finished (pos 0) [])

output_lies_under :
    relative_to root (joined_path root (codes "reports/r.md")) ≡ ok (codes "reports/r.md")
unfolding relative_to joined_path starts_with text_eq codes
output_lies_under = refl

-- A captured output stops the campaign of the ten cases.
hanging_case : run_cases (outside_of third_hangs) 0 fault_cases ≡ err type_error
unfolding run_cases run_case case_result timeout_text
hanging_case = refl

-- An absolute path of a report that does not lie under the root ends the program with an error
-- behind the writing.
outside_root :
    relative_to root (codes "/tmp/r.md") ≡ err (value_error (codes "path is not in the subpath"))
unfolding relative_to starts_with text_eq codes
outside_root = refl

padded : zero_padded 3 7 ≡ codes "007"
unfolding zero_padded zeros decimal decimal_loop codes
padded = refl

short_name : without_first (codes "ab") (codes "xabyab") ≡ codes "xyab"
unfolding without_first starts_with codes
short_name = refl

main-Children_example :
    (((written : Text) × ((Fdir.main
            (outside_of third_hangs)
            root
            (codes "build")
            (codes "reports/r.md")).report
          ≡ some written))
      ↔ Children is_recorded (outside_of third_hangs) 0 fault_cases)
    × (((Fdir.main (outside_of third_hangs) root (codes "build") (codes "reports/r.md")).result
          ≡ ok (pos 0))
        ↔ (Children is_passed (outside_of third_hangs) 0 fault_cases
            × ((shown : Text) × (relative_to root (joined_path root (codes "reports/r.md"))
                  ≡ ok shown))))
main-Children_example =
    main-Children (outside_of third_hangs) root (codes "build") (codes "reports/r.md")
      (λ path written. refl)

abbrev draws : Draws
draws = record { command_port = 50000; sensor_loop = 11; watchdog_loop = 7; place = 3 }

abbrev args : Args
args = record {
  trials = pos 3;
  seed = pos 7;
  output = codes "reports/r.md";
  build_dir = codes "build";
  timeout_positive = true;
  timeout_text = codes "45.0";
}

main-Passing_example :
    let outcome = Run.main (outside_of third_hangs) (λ b. b) (λ i. draws) root args in
    (length outcome.trials ≡ 3)
    × (outcome.report ≡ some (write_report args.seed outcome.trials))
    × ((outcome.result ≡ ok (pos 0)) ↔ Passing (outside_of third_hangs) (λ i. draws) 1 3)
main-Passing_example =
    main-Passing (outside_of third_hangs) (λ b. b) (λ i. draws) root (codes "reports/r.md") args 2
      refl refl (λ i s. (_, refl)) (λ path written. refl) output_lies_under
