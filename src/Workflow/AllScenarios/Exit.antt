-- ===== src/Workflow/AllScenarios/Exit.antt =====
-- tools/run_all_scenarios.py: what a return of 0 says of the commands.
use astra_sim_fsw.Base.{
  Bool, true, ◌&&◌, List, [], ◌∷◌, ◌++◌, ◌≡◌, ◌↔◌, refl, sym, subst, Bool-cases, inl, inr,
  append-nil, ◌∙◌, Text, Result, ok, map,
}
use astra_sim_fsw.Workflow.{Command, Trace, World, Place, Ran}
use astra_sim_fsw.Workflow.AllScenarios.{
  Args, build_command, scenario_command, scenario_files, run_command, run_build_and_unit_tests,
}
use astra_sim_fsw.Workflow.AllScenarios.Main.{
  fdir_command, monte_carlo_command, pi_package_command, protocol_command, requirements_command,
  assistant_eval_command, main,
}
use astra_sim_fsw.Workflow.AllScenarios.Plan.{
  Stage, build, scenarios, fdir, monte_carlo, pi_package, protocol, requirements, assistant_eval,
  plan, is_skipped, Runs, finished, passed, stopped, raised, act, main-Runs,
}
use astra_sim_fsw.Workflow.AllScenarios.Performed.{
  returns_zero, AllPass, Performs, ended-Performs, joined-Performs, run_command-Performs,
}
use astra_sim_fsw.Workflow.AllScenarios.Scenarios.{nonempty, run_scenarios-Performs}

-- The commands of a stage, over the scenarios that match.
unfoldable pub stage_commands : Place → Args → List Text → Stage → List Command
stage_commands place args files build = build_command place ∷ []
stage_commands place args files scenarios = map (scenario_command place args.build_dir) files
stage_commands place args files fdir = fdir_command place args ∷ []
stage_commands place args files monte_carlo = monte_carlo_command place args ∷ []
stage_commands place args files pi_package = pi_package_command place args ∷ []
stage_commands place args files protocol = protocol_command place ∷ []
stage_commands place args files requirements = requirements_command place ∷ []
stage_commands place args files assistant_eval = assistant_eval_command place ∷ []

unfoldable pub commands_of : (Stage → List Command) → List Stage → List Command
commands_of commands [] = []
commands_of commands (s ∷ ss) = commands s ++ commands_of commands ss

-- Only the scenario stage has a list of commands that it does not take: the empty one.
unfoldable pub is_admissible : List Text → Stage → Bool
is_admissible files scenarios = nonempty files
is_admissible files _ = true

abbrev all_admissible : (Stage → Bool) → List Stage → Bool
all_admissible good [] = true
all_admissible good (s ∷ ss) = good s && all_admissible good ss

act-Performs :
    (world : World) (place : Place) (glob : Text → Result (List Text)) (args : Args)
    (files : List Text)
    → scenario_files glob args.pattern ≡ ok files
    → (s : Stage) (t : Trace)
    → Performs world
        (is_admissible files s)
        (stage_commands place args files s)
        t
        (act world place glob args s t)
unfolding act stage_commands is_admissible
act-Performs world place glob args files h build t =
    unfold run_build_and_unit_tests run_command in
    run_command-Performs world t (build_command place)
act-Performs world place glob args files h scenarios t =
    run_scenarios-Performs world place glob args.pattern args.build_dir t files h
act-Performs world place glob args files h fdir t =
    run_command-Performs world t (fdir_command place args)
act-Performs world place glob args files h monte_carlo t =
    run_command-Performs world t (monte_carlo_command place args)
act-Performs world place glob args files h pi_package t =
    run_command-Performs world t (pi_package_command place args)
act-Performs world place glob args files h protocol t =
    run_command-Performs world t (protocol_command place)
act-Performs world place glob args files h requirements t =
    run_command-Performs world t (requirements_command place)
act-Performs world place glob args files h assistant_eval t =
    run_command-Performs world t (assistant_eval_command place)

-- A plan performs the commands of its stages, if each stage performs its own.
module _ (world : World) (good : Stage → Bool) (commands : Stage → List Command)
    (act : Stage → Trace → Ran)
    (stage : (s : Stage) (t : Trace) → Performs world (good s) (commands s) t (act s t)) where
  Runs-Performs :
      (ss : List Stage) (t : Trace) (r : Ran)
      → Runs act ss t r
      → Performs world (all_admissible good ss) (commands_of commands ss) t r
  unfolding commands_of
  Runs-Performs _ t _ finished = record {
    begins = ([], refl);
    zero_iff = (λ z. (refl, tt), λ z. refl);
    complete = λ z. sym (append-nil t);
  }
  Runs-Performs _ t r (passed {s} {ss} {u = u} h runs) =
      joined-Performs world (good s) (all_admissible good ss) (commands s) (commands_of commands ss)
        t u r (subst (Performs world (good s) (commands s) t) h (stage s t))
        (Runs-Performs ss u r runs)
  Runs-Performs _ t r (stopped {s} {ss} h nonzero) =
      ended-Performs world (good s) (all_admissible good ss) (commands s) (commands_of commands ss)
        t r (subst (Performs world (good s) (commands s) t) h (stage s t)) nonzero
  Runs-Performs _ t r (raised {s} {ss} h) =
      ended-Performs world (good s) (all_admissible good ss) (commands s) (commands_of commands ss)
        t r (subst (Performs world (good s) (commands s) t) h (stage s t)) refl

admissible_some :
    (file : Text) (files : List Text) (ss : List Stage)
    → all_admissible (is_admissible (file ∷ files)) ss ≡ true
unfolding is_admissible
admissible_some file files [] = refl
admissible_some file files (scenarios ∷ ss) = admissible_some file files ss
admissible_some file files (_ ∷ ss) = admissible_some file files ss

admissible-plan :
    (args : Args) (files : List Text)
    → all_admissible (is_admissible files) (plan args) ≡ nonempty files
unfolding plan is_admissible is_skipped
admissible-plan args (file ∷ files) = admissible_some file files (plan args)
admissible-plan args [] = elim (Bool-cases args.skip_build) [
  | inl out ↦ rw out refl
  | inr asked ↦ rw asked refl
]

-- The commands that the arguments ask for, in the order of the plan.
unfoldable pub requested_commands : Place → Args → List Text → List Command
unfolding commands_of stage_commands
requested_commands place args files = commands_of (stage_commands place args files) (plan args)

-- Where the pattern can be searched, `main` starts the requested commands in the order of the plan
-- up to one of them, and returns 0 exactly when at least one scenario matches and every requested
-- command returns 0; then it has started them all.
pub main-requested_commands :
    (world : World) (place : Place) (glob : Text → Result (List Text)) (args : Args)
    (files : List Text)
    → scenario_files glob args.pattern ≡ ok files
    → let ran = main world place glob args in
      let commands = requested_commands place args files in
      ((rest : List Command) × (ran.0 ++ rest ≡ commands))
      × ((returns_zero ran.1 ≡ true)
          ↔ ((nonempty files ≡ true) × AllPass world [] commands × (ran.0 ≡ commands)))
unfolding requested_commands
main-requested_commands world place glob args files h =
    let p =
      Runs-Performs world (is_admissible files) (stage_commands place args files)
        (act world place glob args) (act-Performs world place glob args files h) (plan args) []
        (main world place glob args) (main-Runs world place glob args) in
    let e = admissible-plan args files in
    (
      p.begins,
      (
        λ z. let (good, all) = p.zero_iff.0 z in (sym e ∙ good, all, p.complete z),
        λ z. p.zero_iff.1 (e ∙ z.0, z.1),
      ),
    )
