-- ===== src/Workflow/Assurance/Pending.antt =====
-- tools/run_astra_os_assurance.py: what they say where an unexpected exception ends the run.
use astra_sim_fsw.Base.{
  Bool, true, false, not, List, [], ◌∷◌, ◌++◌, ◌≡◌, refl, sym, subst, inl, inr, some, Exception,
  os_error, keyboard_interrupt, Result, ok, err, Bool-cases,
}
use astra_sim_fsw.Base.Int.{ℤ, pos, int_eq}
use astra_sim_fsw.Base.Json.{Value}
use astra_sim_fsw.Workflow.{Command, Trace, Place}
use astra_sim_fsw.Workflow.Assurance.{
  StageResult, passed, Planned, Completed, Outside, result_of, run_stage, write_summary,
  manifest_command,
}
use astra_sim_fsw.Workflow.Assurance.Main.{
  Args, planned_stages, Progress, interrupted, run_stages, second_summary, after_manifest,
  first_summary, conclude, main,
}
use astra_sim_fsw.Workflow.Assurance.Ran.{Ran, run_stages-Ran}
use astra_sim_fsw.Workflow.Assurance.Said.{
  Says, Summarises, manifest_command-Says, write_summary-Summarises,
}

interrupted-pending :
    (t : Trace) (results : List StageResult) (e raised : Exception)
    → (interrupted t results e).pending ≡ some raised
    → (interrupted t results e).good ≡ true
unfolding interrupted
interrupted-pending t results (os_error m) raised h = absurd (cc (h))
interrupted-pending t results keyboard_interrupt raised h = absurd (cc (h))
interrupted-pending t results _ raised h = refl

run_stages-pending :
    (outside : Outside) (t : Trace) (results : List StageResult) (stages : List Planned)
    (raised : Exception)
    → (run_stages outside t results stages).pending ≡ some raised
    → (run_stages outside t results stages).good ≡ true
unfolding run_stages run_stage passed result_of
run_stages-pending outside t results [] raised h = refl
run_stages-pending outside t results (s ∷ ss) raised h =
    go (outside.process t s) refl
      (λ more. run_stages-pending outside (t ++ (s.command ∷ [])) more ss raised)
  where
    go :
        (r : Result Completed)
        → outside.process t s ≡ r
        → ((more : List StageResult)
            → (run_stages outside (t ++ (s.command ∷ [])) more ss).pending ≡ some raised
            → (run_stages outside (t ++ (s.command ∷ [])) more ss).good ≡ true)
        → (run_stages outside t results (s ∷ ss)).good ≡ true
    go (err e) k next =
        rw (run_stages, run_stage, k)
          (interrupted-pending (t ++ (s.command ∷ [])) results e raised
            (rw (run_stages, run_stage, k) at h))
    go (ok done) k next = elim (Bool-cases (int_eq done.return_code (pos 0))) [
      | inl same ↦
          rw (run_stages, run_stage, k)
            (rw same (next _ (rw same at (rw (run_stages, run_stage, k) at h))))
      | inr other ↦ absurd (cc (rw other at (rw (run_stages, run_stage, k) at h)))
    ]

second_summary-first :
    (outside : Outside) (quick : Bool) (p : Progress) (first : Value) (command : Command)
    (w : Result (Unit {0}))
    → ((later : List Value) × ((second_summary outside quick p first command w).summaries
          ≡ first ∷ later))
      × ((second_summary outside quick p first command w).manifests ≡ command ∷ [])
unfolding second_summary
second_summary-first outside quick p first command (err e) = (([], refl), refl)
second_summary-first outside quick p first command (ok _) = ((_, refl), refl)

after_manifest-first :
    (outside : Outside) (quick : Bool) (p : Progress) (first : Value) (command : Command)
    (r : Result ℤ)
    → ((later : List Value) × ((after_manifest outside quick p first command r).summaries
          ≡ first ∷ later))
      × ((after_manifest outside quick p first command r).manifests ≡ command ∷ [])
unfolding after_manifest
after_manifest-first outside quick p first command (err e) = (([], refl), refl)
after_manifest-first outside quick p first command (ok code) =
    elim (Bool-cases (int_eq code (pos 0))) [
      | inl same ↦ rw (after_manifest, same) (([], refl), refl)
      | inr other ↦
          rw (after_manifest, other)
            (second_summary-first outside quick p first command (outside.summary_error true))
    ]

main-pending_words :
    (outside : Outside) (place : Place) (args : Args) (e : Exception)
    → let p = run_stages outside [] [] (planned_stages place args) in
      p.pending ≡ some e
      → outside.summary_error false ≡ ok tt
      → ((later : List Value) × ((main outside place args).summaries
            ≡ write_summary (outside.now false) true args.quick p.results ∷ later))
        × ((main outside place args).manifests
            ≡ manifest_command place true p.commands_executed (not args.quick) ∷ [])
unfolding main conclude first_summary
main-pending_words outside place args e pending written =
    let p = run_stages outside [] [] (planned_stages place args) in
    let good = run_stages-pending outside [] [] (planned_stages place args) e pending in
    let command = manifest_command place p.good p.commands_executed (not args.quick) in
    let found =
      after_manifest-first outside args.quick p
        (write_summary (outside.now false) p.good args.quick p.results) command
        (outside.manifest command) in
    rw (first_summary, written)
      (subst
        (λ (b : Bool).
          let c = manifest_command place b p.commands_executed (not args.quick) in
          let first = write_summary (outside.now false) b args.quick p.results in
          ((later : List Value) × ((after_manifest outside args.quick p first c
                (outside.manifest c)).summaries
              ≡ write_summary (outside.now false) true args.quick p.results ∷ later))
          × ((after_manifest outside args.quick p first c (outside.manifest c)).manifests
              ≡ manifest_command place true p.commands_executed (not args.quick) ∷ []))
        (sym good)
        (after_manifest-first outside args.quick p
          (write_summary (outside.now false) true args.quick p.results)
          (manifest_command place true p.commands_executed (not args.quick))
          (outside.manifest (manifest_command place true p.commands_executed (not args.quick)))))

-- Where an exception that is neither an `OSError` nor a `KeyboardInterrupt` leaves the stages and
-- the summary can be written, the first summary, with the results of the stages that returned, and
-- the command of the manifest all the same have the status "passed".
pub main-pending :
    (outside : Outside) (place : Place) (args : Args) (e : Exception)
    → (run_stages outside [] [] (planned_stages place args)).pending ≡ some e
    → outside.summary_error false ≡ ok tt
    → (results : List StageResult) × (executed : Trace) × Ran outside []
        (planned_stages place args)
        results
        executed
      × ((first : Value) × (later : List Value) × ((main outside place args).summaries
            ≡ first ∷ later)
          × Summarises true args.quick results first)
      × ((command : Command) × ((main outside place args).manifests ≡ command ∷ [])
          × Says true executed command)
main-pending outside place args e pending written =
    let p = run_stages outside [] [] (planned_stages place args) in
    let ((later, summaries), manifests) = main-pending_words outside place args e pending written in
    let (results, executed, are_results, are_executed, ran) =
      run_stages-Ran outside [] [] (planned_stages place args) in
    let first = write_summary (outside.now false) true args.quick p.results in
    let command = manifest_command place true p.commands_executed (not args.quick) in
    (
      results,
      executed,
      ran,
      (
        first,
        later,
        summaries,
        subst (λ rs. Summarises true args.quick rs first) are_results
            (write_summary-Summarises (outside.now false) true args.quick p.results),
      ),
      (
        command,
        manifests,
        subst (λ t. Says true t command) are_executed
            (manifest_command-Says place true p.commands_executed (not args.quick)),
      ),
    )
