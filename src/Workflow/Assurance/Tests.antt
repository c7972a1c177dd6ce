-- ===== src/Workflow/Assurance/Tests.antt =====
-- tools/run_astra_os_assurance.py on small runs.
use astra_sim_fsw.Base.{
  true, false, not, List, [], ◌∷◌, ◌≡◌, ◌↔◌, refl, some, codes, value_error, Result, ok, err,
  length, strip_of, lstrip_of, rstrip_of,
}
use astra_sim_fsw.Base.Int.{ℤ, pos}
use astra_sim_fsw.Base.Json.{Value}
use astra_sim_fsw.Workflow.{Command, Trace, Place}
use astra_sim_fsw.Workflow.Assurance.{
  StageResult, result_of, Planned, Completed, Outside, safe_stage_name, is_alnum, run_stage,
  manifest_command, passed,
}
use astra_sim_fsw.Workflow.Assurance.Main.{
  Args, planned_stages, first_stages, run_stages, interrupted, main, conclude, first_summary,
  after_manifest,
}
use astra_sim_fsw.Workflow.Assurance.Concluded.{AllStages, returns_zero, commands_of, main-zero_iff}
use astra_sim_fsw.Workflow.Assurance.Recorded.{AgreesWith, IsNamed, main-AgreesWith}
use astra_sim_fsw.Workflow.Assurance.Pending.{main-pending}
use astra_sim_fsw.Workflow.Assurance.Ran.{Ran}
use astra_sim_fsw.Workflow.Assurance.Said.{Says, Summarises}

abbrev place : Place
place = record { executable = codes "python3"; root = codes "/repo" }

abbrev args : Args
args = record {
  quick = true;
  build_dir = codes "build";
  skip_monte_carlo = false;
  skip_pi_package = true;
}

abbrev done : ℤ → Completed
done code = record { return_code = code; started_at_utc = codes "t0"; finished_at_utc = codes "t1" }

abbrev outside_of : (Trace → Planned → Result Completed) → Outside
outside_of process = record {
  process = process;
  manifest = λ command. ok (pos 0);
  now = λ again. codes "t2";
  summary_error = λ again. ok tt;
}

-- The second stage returns 1.
abbrev second_fails : Trace → Planned → Result Completed
second_fails (a ∷ []) stage = ok (done (pos 1))
second_fails trace stage = ok (done (pos 0))

-- The output of the second stage does not decode.
abbrev second_raises : Trace → Planned → Result Completed
second_raises (a ∷ []) stage = err (value_error (codes "codec"))
second_raises trace stage = ok (done (pos 0))

log_name : safe_stage_name (codes "_full verification_") ≡ codes "full_verification"
unfolding safe_stage_name is_alnum codes strip_of lstrip_of rstrip_of
log_name = refl

fails : (main (outside_of second_fails) place args).result ≡ ok (pos 1)
unfolding main planned_stages first_stages run_stages run_stage passed result_of conclude
    first_summary after_manifest
fails = refl

stops : length (main (outside_of second_fails) place args).commands ≡ 2
unfolding main planned_stages first_stages run_stages run_stage passed result_of conclude
    first_summary after_manifest
stops = refl

raises :
    (run_stages (outside_of second_raises) [] [] (planned_stages place args)).pending
    ≡ some (value_error (codes "codec"))
unfolding planned_stages first_stages run_stages run_stage passed result_of interrupted
raises = refl

main-zero_iff_example :
    let stages = planned_stages place args in
    let command = manifest_command place true (commands_of stages) (not args.quick) in
    (((main (outside_of second_fails) place args).result ≡ ok (pos 0)) ↔ (
      AllStages (outside_of second_fails) [] stages
      × ((outside_of second_fails).summary_error false ≡ ok tt)
      × (returns_zero ((outside_of second_fails).manifest command) ≡ true)))
    × Says true (commands_of stages) command
main-zero_iff_example = main-zero_iff (outside_of second_fails) place args

main-AgreesWith_example :
    let stages = planned_stages place args in
    (results : List StageResult) × (executed : Trace) × Ran
      (outside_of second_fails)
      []
      stages
      results
      executed
    × AgreesWith args.quick results (pos 1) (main (outside_of second_fails) place args).summaries
    × IsNamed
        (outside_of second_fails)
        stages
        executed
        (main (outside_of second_fails) place args).manifests
main-AgreesWith_example = main-AgreesWith (outside_of second_fails) place args (pos 1) fails

main-pending_example :
    (results : List StageResult) × (executed : Trace) × Ran
      (outside_of second_raises)
      []
      (planned_stages place args)
      results
      executed
    × ((first : Value) × (later : List Value) × ((main
            (outside_of second_raises)
            place
            args).summaries
          ≡ first ∷ later)
        × Summarises true args.quick results first)
    × ((command : Command) × ((main (outside_of second_raises) place args).manifests ≡ command ∷ [])
        × Says true executed command)
main-pending_example =
    main-pending (outside_of second_raises) place args (value_error (codes "codec")) raises refl
