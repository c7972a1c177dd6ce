-- ===== src/Workflow/AllScenarios/Main.antt =====
-- tools/run_all_scenarios.py: `main`, stage by stage.
use astra_sim_fsw.Base.{List, [], ◌∷◌, Text, codes, Result}
use astra_sim_fsw.Base.Int.{int_text}
use astra_sim_fsw.Workflow.{Command, World, Place, path_in, Ran}
use astra_sim_fsw.Workflow.AllScenarios.{
  Args, run_command, run_build_and_unit_tests, run_scenarios, and_then, unless,
}

unfoldable pub fdir_command : Place → Args → Command
unfolding path_in
fdir_command place args =
    place.executable
    ∷ path_in place (codes "tools/run_fdir_campaign.py")
    ∷ codes "--build-dir"
    ∷ args.build_dir
    ∷ []

unfoldable pub monte_carlo_command : Place → Args → Command
unfolding path_in
monte_carlo_command place args =
    place.executable
    ∷ path_in place (codes "tools/run_monte_carlo.py")
    ∷ codes "--trials"
    ∷ int_text args.monte_carlo_trials
    ∷ codes "--seed"
    ∷ int_text args.monte_carlo_seed
    ∷ codes "--build-dir"
    ∷ args.build_dir
    ∷ []

unfoldable pub pi_package_command : Place → Args → Command
unfolding path_in
pi_package_command place args =
    codes "bash"
    ∷ path_in place (codes "tools/package_pi_deployment.sh")
    ∷ codes "--build-dir"
    ∷ args.build_dir
    ∷ []

unfoldable pub protocol_command : Place → Command
unfolding path_in
protocol_command place =
    place.executable ∷ path_in place (codes "tools/check_protocol_conformance.py") ∷ []

unfoldable pub requirements_command : Place → Command
unfolding path_in
requirements_command place =
    place.executable ∷ path_in place (codes "tools/check_requirements.py") ∷ []

unfoldable pub assistant_eval_command : Place → Command
unfolding path_in
assistant_eval_command place =
    place.executable ∷ path_in place (codes "tools/run_assurance_assistant_eval.py") ∷ []

-- `main`
unfoldable pub main : World → Place → (Text → Result (List Text)) → Args → Ran
unfolding unless and_then
main world place glob args =
    let build = unless args.skip_build (run_build_and_unit_tests world place) [] in
    let scenarios = and_then build (run_scenarios world place glob args.pattern args.build_dir) in
    let fdir =
      and_then scenarios
        (unless args.skip_fdir_campaign (λ t. run_command world t (fdir_command place args))) in
    let monte_carlo =
      and_then fdir (
        unless args.skip_monte_carlo (λ t. run_command world t (monte_carlo_command place args))) in
    let pi_package =
      and_then monte_carlo
        (unless args.skip_pi_package (λ t. run_command world t (pi_package_command place args))) in
    let protocol =
      and_then pi_package
        (unless args.skip_protocol_check (λ t. run_command world t (protocol_command place))) in
    let requirements =
      and_then protocol
        (unless args.skip_requirements (λ t. run_command world t (requirements_command place))) in
    and_then requirements
      (unless args.skip_assistant_eval (λ t. run_command world t (assistant_eval_command place)))
