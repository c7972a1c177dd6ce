-- ===== src/Workflow/Assurance/Recorded.antt =====
-- tools/run_astra_os_assurance.py: what the summary and the manifest say of the run.
use astra_sim_fsw.Base.{
  Bool, true, false, not, List, [], ◌∷◌, ◌++◌, ◌≡◌, ◌↔◌, refl, subst, inl, inr, Option, none, some,
  Text, Exception, Result, ok, err, ok-injective, Bool-cases,
}
use astra_sim_fsw.Base.Int.{ℤ, pos, int_eq}
use astra_sim_fsw.Base.Json.{Value}
use astra_sim_fsw.Workflow.{Command, Trace, Place}
use astra_sim_fsw.Workflow.Assurance.{
  StageResult, Planned, Outside, write_summary, manifest_command,
}
use astra_sim_fsw.Workflow.Assurance.Main.{
  Args, planned_stages, Progress, run_stages, ending, second_summary, after_manifest, first_summary,
  conclude, main,
}
use astra_sim_fsw.Workflow.Assurance.Concluded.{AllStages, run_stages-Looped}
use astra_sim_fsw.Workflow.Assurance.Ran.{Ran, run_stages-Ran}
use astra_sim_fsw.Workflow.Assurance.Said.{
  Says, Summarises, manifest_command-Says, write_summary-Summarises,
}

-- The last summary is that of the results with the status of the code.
abbrev EndsWith : Bool → List StageResult → ℤ → List Value → Type 0
EndsWith quick results code summaries =
    (earlier : List Value) × (now : Text) × (summaries
      ≡ earlier ++ (write_summary now (int_eq code (pos 0)) quick results ∷ []))

ending-code :
    (pending : Option Exception) (good : Bool) (code : ℤ)
    → ending pending good ≡ ok code
    → int_eq code (pos 0) ≡ good
ending-code none true code h = subst (λ c. int_eq c (pos 0) ≡ true) (ok-injective h) refl
ending-code none false code h = subst (λ c. int_eq c (pos 0) ≡ false) (ok-injective h) refl
ending-code (some e) good code h = absurd (cc (h))

ending-none :
    (pending : Option Exception) (good : Bool) (code : ℤ)
    → ending pending good ≡ ok code
    → pending ≡ none
ending-none none good code h = refl
ending-none (some e) good code h = absurd (cc (h))

second_summary-EndsWith :
    (outside : Outside) (quick : Bool) (p : Progress) (first : Value) (command : Command)
    (w : Result (Unit {0})) (code : ℤ)
    → (second_summary outside quick p first command w).result ≡ ok code
    → EndsWith quick p.results code (second_summary outside quick p first command w).summaries
      × ((second_summary outside quick p first command w).manifests ≡ command ∷ [])
      × (p.pending ≡ none)
unfolding second_summary
second_summary-EndsWith outside quick p first command (err e) code h = absurd (cc (h))
second_summary-EndsWith outside quick p first command (ok _) code h = (
  (first ∷ [], outside.now true, rw (ending-code p.pending false code h) refl),
  refl,
  ending-none p.pending false code h,
)

after_manifest-EndsWith :
    (outside : Outside) (quick : Bool) (p : Progress) (command : Command) (r : Result ℤ) (code : ℤ)
    → let first = write_summary (outside.now false) p.good quick p.results in
      (after_manifest outside quick p first command r).result ≡ ok code
      → EndsWith quick p.results code (after_manifest outside quick p first command r).summaries
        × ((after_manifest outside quick p first command r).manifests ≡ command ∷ [])
        × (p.pending ≡ none)
unfolding after_manifest
after_manifest-EndsWith outside quick p command (err e) code h = absurd (cc (h))
after_manifest-EndsWith outside quick p command (ok manifest_code) code h =
    elim (Bool-cases (int_eq manifest_code (pos 0))) [
      | inl same ↦
          rw (after_manifest, same)
            (
              (
                [],
                outside.now false,
                rw (ending-code p.pending p.good code (rw (after_manifest, same) at h)) refl,
              ),
              refl,
              ending-none p.pending p.good code (rw (after_manifest, same) at h),
            )
      | inr other ↦
          rw (after_manifest, other)
            (second_summary-EndsWith outside quick p
              (write_summary (outside.now false) p.good quick p.results) command
              (outside.summary_error true) code (rw (after_manifest, other) at h))
    ]

first_summary-EndsWith :
    (outside : Outside) (place : Place) (quick : Bool) (p : Progress) (w : Result (Unit {0}))
    (code : ℤ)
    → (first_summary outside place quick p w).result ≡ ok code
    → EndsWith quick p.results code (first_summary outside place quick p w).summaries
      × ((first_summary outside place quick p w).manifests
          ≡ manifest_command place p.good p.commands_executed (not quick) ∷ [])
      × (p.pending ≡ none)
unfolding first_summary
first_summary-EndsWith outside place quick p (err e) code h = absurd (cc (h))
first_summary-EndsWith outside place quick p (ok _) code h =
    let command = manifest_command place p.good p.commands_executed (not quick) in
    after_manifest-EndsWith outside quick p command (outside.manifest command) code h

-- The last of the summaries holds the results, and the status "passed" exactly where the code is 0.
abbrev pub AgreesWith : Bool → List StageResult → ℤ → List Value → Type 0
AgreesWith quick results code summaries =
    (earlier : List Value) × (last : Value) × (summaries ≡ earlier ++ (last ∷ []))
    × Summarises (int_eq code (pos 0)) quick results last

-- The command of the manifest ran once. It names the commands executed, with the status "passed"
-- exactly where the stages all passed.
abbrev pub IsNamed : Outside → List Planned → Trace → List Command → Type 0
IsNamed outside stages executed manifests =
    (command : Command) × (good : Bool) × (manifests ≡ command ∷ [])
    × Says good executed command
    × ((good ≡ true) ↔ AllStages outside [] stages)

-- Where `main` returns a code, the last summary that it wrote holds the results of the stages that
-- were run, each with what its process returned, and the status "passed" exactly when the code is
-- 0; and the command of the manifest ran once, with the commands that were executed, and with the
-- status "passed" exactly when every planned stage passed.
pub main-AgreesWith :
    (outside : Outside) (place : Place) (args : Args) (code : ℤ)
    → (main outside place args).result ≡ ok code
    → let stages = planned_stages place args in
      (results : List StageResult) × (executed : Trace) × Ran outside [] stages results executed
      × AgreesWith args.quick results code (main outside place args).summaries
      × IsNamed outside stages executed (main outside place args).manifests
unfolding main conclude
main-AgreesWith outside place args code h =
    let stages = planned_stages place args in
    let p = run_stages outside [] [] stages in
    let ((earlier, now, ends), manifest, none_left) =
      first_summary-EndsWith outside place args.quick p (outside.summary_error false) code h in
    let (results, executed, are_results, are_executed, ran) = run_stages-Ran outside [] [] stages in
    let looped = run_stages-Looped outside [] [] stages in
    let good = int_eq code (pos 0) in
    (
      results,
      executed,
      ran,
      (
        earlier,
        write_summary now good args.quick p.results,
        ends,
        subst (λ rs. Summarises good args.quick rs (write_summary now good args.quick p.results))
            are_results (write_summary-Summarises now good args.quick p.results),
      ),
      (
        manifest_command place p.good p.commands_executed (not args.quick),
        p.good,
        manifest,
        subst
            (λ t.
              Says p.good t (manifest_command place p.good p.commands_executed (not args.quick)))
            are_executed (manifest_command-Says place p.good p.commands_executed (not args.quick)),
        (λ passed. looped.sound passed none_left, λ all. (looped.full all).0),
      ),
    )
