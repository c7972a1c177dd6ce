-- ===== src/Workflow/AllScenarios/Tests.antt =====
-- tools/run_all_scenarios.py on small runs.
use astra_sim_fsw.Base.{
  true, false, List, [], ◌∷◌, ◌++◌, ◌≡◌, ◌↔◌, refl, none, Text, codes, Result, ok, length,
}
use astra_sim_fsw.Base.Int.{pos}
use astra_sim_fsw.Base.Sort.{sorted, insert_sorted}
use astra_sim_fsw.Base.{text_leb, ◌>>=◌}
use astra_sim_fsw.Workflow.{Command, World, Place, run}
use astra_sim_fsw.Workflow.AllScenarios.{
  Args, scenario_files, path_key, run_scenarios, run_command, scenario_results, code_of, failed,
  passed, unless, and_then,
}
use astra_sim_fsw.Workflow.AllScenarios.Main.{main}
use astra_sim_fsw.Workflow.AllScenarios.Plan.{Runs, act, plan, main-Runs}
use astra_sim_fsw.Workflow.AllScenarios.Performed.{returns_zero, AllPass}
use astra_sim_fsw.Workflow.AllScenarios.Scenarios.{nonempty}
use astra_sim_fsw.Workflow.AllScenarios.Exit.{requested_commands, main-requested_commands}

abbrev place : Place
place = record { executable = codes "python3"; root = codes "/repo" }

abbrev args : Args
args = record {
  build_dir = codes "build";
  skip_build = true;
  skip_requirements = false;
  skip_protocol_check = false;
  skip_fdir_campaign = true;
  skip_assistant_eval = true;
  skip_monte_carlo = false;
  skip_pi_package = true;
  monte_carlo_trials = pos 25;
  monte_carlo_seed = pos 7;
  pattern = none;
}

abbrev files : List Text
files = codes "scenarios/a.yaml" ∷ codes "scenarios/b.yaml" ∷ []

abbrev glob : Text → Result (List Text)
glob pattern = ok (codes "scenarios/b.yaml" ∷ codes "scenarios/a.yaml" ∷ [])

-- The command that follows three others fails.
abbrev fourth_fails : World
fourth_fails (a ∷ b ∷ c ∷ []) command = ok (pos 2)
fourth_fails trace command = ok (pos 0)

abbrev first_fails : World
first_fails [] command = ok (pos 1)
first_fails trace command = ok (pos 0)

files_found : scenario_files glob none ≡ ok files
unfolding scenario_files sorted insert_sorted path_key codes text_leb ◌>>=◌
files_found = refl

-- The protocol check follows two scenarios and the Monte Carlo run; its code is returned.
stops_at_protocol : (main fourth_fails place glob args).1 ≡ ok (pos 2)
unfolding main run_scenarios scenario_files sorted insert_sorted path_key codes text_leb run_command
    scenario_results run code_of failed passed unless and_then
stops_at_protocol = refl

-- A scenario that fails does not keep the next from running.
runs_both : length (main first_fails place glob args).0 ≡ 2
unfolding main run_scenarios scenario_files sorted insert_sorted path_key codes text_leb run_command
    scenario_results run code_of failed passed unless and_then
runs_both = refl

main-Runs_example :
    Runs (act fourth_fails place glob args) (plan args) [] (main fourth_fails place glob args)
main-Runs_example = main-Runs fourth_fails place glob args

main-requested_commands_example :
    ((rest : List Command) × ((main fourth_fails place glob args).0 ++ rest
        ≡ requested_commands place args files))
    × ((returns_zero (main fourth_fails place glob args).1 ≡ true) ↔ (
        (nonempty files ≡ true)
        × AllPass fourth_fails [] (requested_commands place args files)
        × ((main fourth_fails place glob args).0 ≡ requested_commands place args files)))
main-requested_commands_example =
    main-requested_commands fourth_fails place glob args files files_found
