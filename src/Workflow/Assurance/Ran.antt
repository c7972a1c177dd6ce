-- ===== src/Workflow/Assurance/Ran.antt =====
-- tools/run_astra_os_assurance.py: the results of the stages that were run.
use astra_sim_fsw.Base.{
  true, false, List, [], ◌∷◌, ◌++◌, ◌≡◌, ◌⊎◌, refl, sym, ◌∙◌, inl, inr, Exception, os_error,
  keyboard_interrupt, Result, ok, err, Bool-cases, append_assoc, append-nil,
}
use astra_sim_fsw.Base.Int.{pos, int_eq}
use astra_sim_fsw.Workflow.{Trace}
use astra_sim_fsw.Workflow.Assurance.{
  StageResult, passed, Planned, Completed, Outside, result_of, run_stage,
}
use astra_sim_fsw.Workflow.Assurance.Main.{Progress, interrupted, run_stages}

-- The result of a stage has its name and its command, and the code and the times of its process.
abbrev pub IsResult : Planned → Completed → StageResult → Type 0
IsResult stage done result =
    (result.name ≡ stage.name)
    × (result.command ≡ stage.command)
    × (result.return_code ≡ done.return_code)
    × (result.started_at_utc ≡ done.started_at_utc)
    × (result.finished_at_utc ≡ done.finished_at_utc)

-- The results and the commands of the stages behind a trace: each stage's process is started with
-- the commands before it, until one raises or returns another code than 0; a process that returns
-- leaves a result.
abbrev pub Ran : Outside → Trace → List Planned → List StageResult → Trace → Type 0
Ran outside t [] results executed = (results ≡ []) × (executed ≡ [])
Ran outside t (s ∷ ss) results executed =
    (later : Trace) × (executed ≡ s.command ∷ later)
    × (((e : Exception) × (outside.process t s ≡ err e) × (results ≡ []) × (later ≡ []))
        ⊎ ((done : Completed) × (r : StageResult) × (rest : List StageResult) × (outside.process t s
              ≡ ok done)
            × (results ≡ r ∷ rest)
            × IsResult s done r
            × (((int_eq done.return_code (pos 0) ≡ true)
                  × Ran outside (t ++ (s.command ∷ [])) ss rest later)
                ⊎ ((int_eq done.return_code (pos 0) ≡ false) × (rest ≡ []) × (later ≡ [])))))

interrupted-kept :
    (t : Trace) (results : List StageResult) (e : Exception)
    → ((interrupted t results e).results ≡ results)
      × ((interrupted t results e).commands_executed ≡ t)
unfolding interrupted
interrupted-kept t results (os_error m) = (refl, refl)
interrupted-kept t results keyboard_interrupt = (refl, refl)
interrupted-kept t results _ = (refl, refl)

-- What the loop adds to the results and the commands before it.
abbrev Adds : Outside → Trace → List StageResult → List Planned → Progress → Type 0
Adds outside t results stages p =
    (more : List StageResult) × (executed : Trace) × (p.results ≡ results ++ more)
    × (p.commands_executed ≡ t ++ executed)
    × Ran outside t stages more executed

pub run_stages-Ran :
    (outside : Outside) (t : Trace) (results : List StageResult) (stages : List Planned)
    → Adds outside t results stages (run_stages outside t results stages)
unfolding run_stages run_stage passed result_of
run_stages-Ran outside t results [] =
    ([], [], sym (append-nil results), sym (append-nil t), (refl, refl))
run_stages-Ran outside t results (s ∷ ss) =
    go (outside.process t s) refl (λ more. run_stages-Ran outside (t ++ (s.command ∷ [])) more ss)
  where
    go :
        (r : Result Completed)
        → outside.process t s ≡ r
        → ((more : List StageResult)
            → Adds outside
                (t ++ (s.command ∷ []))
                more
                ss
                (run_stages outside (t ++ (s.command ∷ [])) more ss))
        → Adds outside t results (s ∷ ss) (run_stages outside t results (s ∷ ss))
    go (err e) h next =
        let (same, commands) = interrupted-kept (t ++ (s.command ∷ [])) results e in
        rw (run_stages, run_stage, h)
          (
            [],
            s.command ∷ [],
            same ∙ sym (append-nil results),
            commands,
            ([], refl, inl (e, refl, refl, refl)),
          )
    go (ok done) h next =
        let r = result_of s done in
        elim (Bool-cases (int_eq done.return_code (pos 0))) [
          | inl zero_code ↦
              let (more, executed, kept, commands, ran) = next (results ++ (r ∷ [])) in
              rw (run_stages, run_stage, h)
                (rw zero_code (
                  r ∷ more,
                  s.command ∷ executed,
                  kept ∙ append_assoc results (r ∷ []) more,
                  commands ∙ append_assoc t (s.command ∷ []) executed,
                  (
                    executed,
                    refl,
                    inr (
                      done,
                      r,
                      more,
                      refl,
                      refl,
                      (refl, refl, refl, refl, refl),
                      inl (zero_code, ran),
                    ),
                  ),
                ))
          | inr other ↦
              rw (run_stages, run_stage, h)
                (rw other (
                  r ∷ [],
                  s.command ∷ [],
                  refl,
                  refl,
                  (
                    [],
                    refl,
                    inr (
                      done,
                      r,
                      [],
                      refl,
                      refl,
                      (refl, refl, refl, refl, refl),
                      inr (other, refl, refl),
                    ),
                  ),
                ))
        ]
