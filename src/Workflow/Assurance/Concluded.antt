-- ===== src/Workflow/Assurance/Concluded.antt =====
-- tools/run_astra_os_assurance.py: when the workflow returns 0.
use astra_sim_fsw.Base.{
  Bool, true, false, not, List, [], ◌∷◌, ◌++◌, ◌≡◌, ◌↔◌, refl, sym, ap, subst, ◌∙◌, inl, inr,
  Option, none, some, map, Exception, os_error, keyboard_interrupt, Result, ok, err, Bool-cases,
  append_assoc, append-nil,
}
use astra_sim_fsw.Base.Int.{ℤ, pos, int_eq}
use astra_sim_fsw.Base.Json.{Value}
use astra_sim_fsw.Workflow.{Command, Trace, Place}
use astra_sim_fsw.Workflow.Assurance.{
  StageResult, passed, Planned, Completed, Outside, result_of, run_stage, write_summary,
  manifest_command,
}
use astra_sim_fsw.Workflow.Assurance.Said.{Says, manifest_command-Says}
use astra_sim_fsw.Workflow.Assurance.Main.{
  Args, planned_stages, Progress, interrupted, run_stages, ending, second_summary, after_manifest,
  first_summary, conclude, main,
}

abbrev pub passes : Result Completed → Bool
passes (err e) = false
passes (ok done) = int_eq done.return_code (pos 0)

abbrev pub returns_zero : Result ℤ → Bool
returns_zero (err e) = false
returns_zero (ok code) = int_eq code (pos 0)

-- Every stage's process returns 0 behind the commands of the ones before it.
abbrev pub AllStages : Outside → Trace → List Planned → Type 0
AllStages outside t [] = Unit
AllStages outside t (s ∷ ss) =
    (passes (outside.process t s) ≡ true) × AllStages outside (t ++ (s.command ∷ [])) ss

abbrev pub commands_of : List Planned → Trace
commands_of stages = map (λ s. s.command) stages

-- What the loop leaves is good with nothing pending exactly when all stages passed; then it has
-- executed all their commands.
pub record Looped (outside : Outside) (t : Trace) (stages : List Planned) (p : Progress)
    : Type 0 where
  pub begins : (rest : Trace) × (p.commands_executed ++ rest ≡ t ++ commands_of stages)
  pub sound : p.good ≡ true → p.pending ≡ none → AllStages outside t stages
  pub full : AllStages outside t stages → (p.good ≡ true) × (p.pending ≡ none)
  complete : p.good ≡ true → p.pending ≡ none → p.commands_executed ≡ t ++ commands_of stages

-- A loop that ends with the command of its first stage, which did not pass.
halted-Looped :
    (outside : Outside) (t : Trace) (s : Planned) (ss : List Planned) (p : Progress)
    → p.commands_executed ≡ t ++ (s.command ∷ [])
    → passes (outside.process t s) ≡ false
    → (p.good ≡ true → p.pending ≡ none → ⊥)
    → Looped outside t (s ∷ ss) p
halted-Looped outside t s ss p e fails bad = record {
  begins = (
    commands_of ss,
    ap (λ u. u ++ commands_of ss) e ∙ append_assoc t (s.command ∷ []) (commands_of ss),
  );
  sound = λ good none_left. absurd (bad good none_left);
  full = λ all. absurd (cc (fails, all.0));
  complete = λ good none_left. absurd (bad good none_left);
}

further-Looped :
    (outside : Outside) (t : Trace) (s : Planned) (ss : List Planned) (p : Progress)
    → passes (outside.process t s) ≡ true
    → Looped outside (t ++ (s.command ∷ [])) ss p
    → Looped outside t (s ∷ ss) p
further-Looped outside t s ss p fine q =
    let whole = append_assoc t (s.command ∷ []) (commands_of ss) in
    record {
      begins = let (rest, e) = q.begins in (rest, e ∙ whole);
      sound = λ good none_left. (fine, q.sound good none_left);
      full = λ all. q.full all.1;
      complete = λ good none_left. q.complete good none_left ∙ whole;
    }

interrupted-bad :
    (t : Trace) (results : List StageResult) (e : Exception)
    → ((interrupted t results e).commands_executed ≡ t)
      × ((interrupted t results e).good ≡ true → (interrupted t results e).pending ≡ none → ⊥)
unfolding interrupted
interrupted-bad t results (os_error m) = (refl, λ h k. cc)
interrupted-bad t results keyboard_interrupt = (refl, λ h k. cc)
interrupted-bad t results _ = (refl, λ h k. cc)

pub run_stages-Looped :
    (outside : Outside) (t : Trace) (results : List StageResult) (stages : List Planned)
    → Looped outside t stages (run_stages outside t results stages)
unfolding run_stages run_stage passed result_of
run_stages-Looped outside t results [] = record {
  begins = ([], append-nil t ∙ sym (append-nil t));
  sound = λ good none_left. tt;
  full = λ all. (refl, refl);
  complete = λ good none_left. sym (append-nil t);
}
run_stages-Looped outside t results (s ∷ ss) =
    go (outside.process t s) refl
      (λ more. run_stages-Looped outside (t ++ (s.command ∷ [])) more ss)
  where
    go :
        (r : Result Completed)
        → outside.process t s ≡ r
        → ((more : List StageResult)
            → Looped outside
                (t ++ (s.command ∷ []))
                ss
                (run_stages outside (t ++ (s.command ∷ [])) more ss))
        → Looped outside t (s ∷ ss) (run_stages outside t results (s ∷ ss))
    go (err e) h next =
        let (same, bad) = interrupted-bad (t ++ (s.command ∷ [])) results e in
        rw (run_stages, run_stage, h)
          (halted-Looped outside t s ss (interrupted (t ++ (s.command ∷ [])) results e) same
            (rw h refl) bad)
    go (ok done) h next = elim (Bool-cases (int_eq done.return_code (pos 0))) [
      | inl zero_code ↦
          rw (run_stages, run_stage, h)
            (rw zero_code (further-Looped outside t s ss _ (rw h zero_code) (next _)))
      | inr other ↦
          rw (run_stages, run_stage, h)
            (rw other (halted-Looped outside t s ss _ refl (rw h other) (λ good k. cc (good))))
    ]

-- The code at the end.
ending-zero_iff :
    (pending : Option Exception) (good : Bool)
    → (ending pending good ≡ ok (pos 0)) ↔ ((good ≡ true) × (pending ≡ none))
ending-zero_iff none true = (λ h. (refl, refl), λ h. refl)
ending-zero_iff none false = (λ h. absurd (cc (h)), λ h. absurd (cc (h.0)))
ending-zero_iff (some e) good = (λ h. absurd (cc (h)), λ h. absurd (cc (h.1)))

second_summary-nonzero :
    (outside : Outside) (quick : Bool) (p : Progress) (first : Value) (command : Command)
    (w : Result (Unit {0}))
    → (second_summary outside quick p first command w).result ≡ ok (pos 0)
    → ⊥
unfolding second_summary
second_summary-nonzero outside quick p first command (err e) h = cc
second_summary-nonzero outside quick p first command (ok _) h =
    let (good, none_left) = (ending-zero_iff p.pending false).0 h in cc

after_manifest-zero_iff :
    (outside : Outside) (quick : Bool) (p : Progress) (first : Value) (command : Command)
    (r : Result ℤ)
    → ((after_manifest outside quick p first command r).result ≡ ok (pos 0))
      ↔ ((returns_zero r ≡ true) × (p.good ≡ true) × (p.pending ≡ none))
unfolding after_manifest
after_manifest-zero_iff outside quick p first command (err e) =
    (λ h. absurd (cc (h)), λ h. absurd (cc (h.0)))
after_manifest-zero_iff outside quick p first command (ok code) =
    elim (Bool-cases (int_eq code (pos 0))) [
      | inl same ↦
          let (there, back) = ending-zero_iff p.pending p.good in
          rw (after_manifest, same)
            (λ h. let (good, none_left) = there h in (refl, good, none_left), λ h. back (h.1, h.2))
      | inr other ↦
          rw (after_manifest, other)
            (
              λ h. absurd (
                  second_summary-nonzero outside quick p first command (outside.summary_error true)
                    h),
              λ h. absurd (cc (h.0)),
            )
    ]

-- Where the loop left a good state and all commands were executed, the manifest names them all.
first_summary-zero_iff :
    (outside : Outside) (place : Place) (quick : Bool) (p : Progress) (w : Result (Unit {0}))
    → ((first_summary outside place quick p w).result ≡ ok (pos 0)) ↔ (
        (w ≡ ok tt)
        × (p.good ≡ true)
        × (p.pending ≡ none)
        × (returns_zero
              (outside.manifest (manifest_command place true p.commands_executed (not quick)))
            ≡ true))
unfolding first_summary
first_summary-zero_iff outside place quick p (err e) =
    (λ h. absurd (cc (h)), λ h. absurd (cc (h.0)))
first_summary-zero_iff outside place quick p (ok tt) =
    let command = manifest_command place p.good p.commands_executed (not quick) in
    let (there, back) =
      after_manifest-zero_iff outside quick p
        (write_summary (outside.now false) p.good quick p.results) command
        (outside.manifest command) in
    let zero_of = λ (good : Bool).
      returns_zero (outside.manifest (manifest_command place good p.commands_executed (not quick)))
      ≡ true in
    (
      λ h.
          let (code, good, none_left) = there h in (refl, good, none_left, subst zero_of good code),
      λ h.
          let (_, good, none_left, code) = h in
          back (subst zero_of (sym good) code, good, none_left),
    )

-- `main` returns 0 exactly when the process of every planned stage is started behind the commands
-- of the ones before it and returns 0, the summary can be written, and the command of the manifest
-- returns 0; and that command has the status "passed" and ends with the options that name the
-- commands of all the planned stages.
pub main-zero_iff :
    (outside : Outside) (place : Place) (args : Args)
    → let stages = planned_stages place args in
      let command = manifest_command place true (commands_of stages) (not args.quick) in
      (((main outside place args).result ≡ ok (pos 0)) ↔ (
        AllStages outside [] stages
        × (outside.summary_error false ≡ ok tt)
        × (returns_zero (outside.manifest command) ≡ true)))
      × Says true (commands_of stages) command
unfolding main conclude
main-zero_iff outside place args =
    let stages = planned_stages place args in
    let p = run_stages outside [] [] stages in
    let looped = run_stages-Looped outside [] [] stages in
    let (there, back) =
      first_summary-zero_iff outside place args.quick p (outside.summary_error false) in
    let zero_of = λ (t : Trace).
      returns_zero (outside.manifest (manifest_command place true t (not args.quick))) ≡ true in
    (
      (
        λ h.
            let (written, good, none_left, code) = there h in
            (
              looped.sound good none_left,
              written,
              subst zero_of (looped.complete good none_left) code,
            ),
        λ h.
            let (all, written, code) = h in
            let (good, none_left) = looped.full all in
            back
              (written, good, none_left, subst zero_of (sym (looped.complete good none_left)) code),
      ),
      manifest_command-Says place true (commands_of stages) (not args.quick),
    )
