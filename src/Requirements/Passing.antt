-- ===== src/Requirements/Passing.antt =====
-- tools/check_requirements.py: when `main` returns 0.
use astra_sim_fsw.Base.{
  List, [], ◌≡◌, ◌↔◌, refl, ap, ◌∙◌, Text, Result, ok, err, value_error, key_error, runtime_error,
  os_error, struct_error, attribute_error, type_error, assertion_error, overflow_error,
  keyboard_interrupt, ◌>>=◌, >>=-ok, ok-injective,
}
use astra_sim_fsw.Requirements.Consistent.{IsConsistent}
use astra_sim_fsw.Requirements.Report.{Outcome, exit_code}
use astra_sim_fsw.Requirements.Failing.{AreUnfailed, status_rows-AreUnfailed}
use astra_sim_fsw.Requirements.Allocated.{
  AreAllocated, AreKnown, unknown_references_iff, reverse_test_allocation_problems_iff,
}
use astra_sim_fsw.Base.Dict.{keys}
use astra_sim_fsw.Requirements.Counted.{exit_code-write_report_iff}
use astra_sim_fsw.Requirements.Read.{evidence_report_passed}
use astra_sim_fsw.Requirements.Main.{
  Outside, Inputs, read_inputs, report_lines, outcome_of, attempt, finish, main,
}

-- Nothing is wrong with what was read.
abbrev pub IsSound : Outside → Inputs → Type 0
IsSound outside inputs =
    IsConsistent inputs.requirements inputs.matrix
    × AreAllocated inputs.matrix inputs.registered_tests
    × (inputs.drift ≡ [])
    × AreKnown inputs.requirements inputs.scenarios
    × AreUnfailed inputs.requirements inputs.scenarios (keys inputs.requirements)

exit_code-IsSound :
    (outside : Outside) (inputs : Inputs)
    → (exit_code (outcome_of outside inputs) ≡ 0) ↔ IsSound outside inputs
exit_code-IsSound outside inputs =
    let evidence = evidence_report_passed outside.files in
    let (there, back) =
      exit_code-write_report_iff evidence inputs.requirements inputs.matrix inputs.scenarios
        inputs.registered_tests inputs.drift in
    let (a, a') = reverse_test_allocation_problems_iff inputs.registered_tests inputs.matrix in
    let (b, b') = unknown_references_iff inputs.requirements inputs.scenarios in
    let (c, c') =
      status_rows-AreUnfailed evidence inputs.requirements inputs.matrix inputs.scenarios in
    (
      λ h.
          let (consistent, allocated, drift, known, unfailed) = there h in
          (consistent, a allocated, drift, b known, c unfailed),
      λ h.
          let (consistent, allocated, drift, known, unfailed) = h in
          back (consistent, a' allocated, drift, b' known, c' unfailed),
    )

abbrev pub report_of : Outside → Inputs → List Text
report_of outside inputs =
    report_lines (outcome_of outside inputs) inputs.scenarios inputs.registered_tests

finish-ok :
    (output_shown : Result Text) (attempted : Result Outcome)
    → finish output_shown attempted ≡ ok 0
    → (outcome : Outcome) × (attempted ≡ ok outcome)
      × ((path : Text) × (output_shown ≡ ok path))
      × (exit_code outcome ≡ 0)
unfolding finish
finish-ok output_shown (ok outcome) h =
    let (path, shown, code) = >>=-ok output_shown (λ path. ok (exit_code outcome)) h in
    (outcome, refl, (path, shown), ok-injective code)
finish-ok s (err (value_error t)) h = absurd (cc h)
finish-ok s (err (key_error t)) h = absurd (cc h)
finish-ok s (err (runtime_error t)) h = absurd (cc h)
finish-ok s (err (os_error t)) h = absurd (cc h)
finish-ok s (err struct_error) h = absurd (cc h)
finish-ok s (err attribute_error) h = absurd (cc h)
finish-ok s (err type_error) h = absurd (cc h)
finish-ok s (err assertion_error) h = absurd (cc h)
finish-ok s (err overflow_error) h = absurd (cc h)
finish-ok s (err keyboard_interrupt) h = absurd (cc h)

attempt-ok :
    (outside : Outside) (outcome : Outcome)
    → attempt outside ≡ ok outcome
    → (inputs : Inputs) × (read_inputs outside ≡ ok inputs)
      × (outside.written (report_of outside inputs) ≡ ok tt)
      × (outcome_of outside inputs ≡ outcome)
unfolding attempt
attempt-ok outside outcome h =
    let (inputs, read, tail) =
      >>=-ok (read_inputs outside)
        (λ inputs.
          outside.written (report_of outside inputs) >>= λ done. ok (outcome_of outside inputs))
        h in
    let (done, written, same) =
      >>=-ok (outside.written (report_of outside inputs)) (λ done. ok (outcome_of outside inputs))
        tail in
    (inputs, read, written, ok-injective same)

-- `main` returns 0 exactly when all inputs can be read, the report can be written below the
-- repository, the matrix and the requirements agree, each registered test is among the tests of the
-- matrix, nothing drifted from the reviewed baseline, every scenario names known requirements only,
-- and each requirement is planned or historical or no scenario that names it failed.
pub main-passes_iff :
    (outside : Outside)
    → (main outside ≡ ok 0) ↔ (
        (inputs : Inputs) × (read_inputs outside ≡ ok inputs)
        × (outside.written (report_of outside inputs) ≡ ok tt)
        × ((path : Text) × (outside.output_shown ≡ ok path))
        × IsSound outside inputs)
unfolding main attempt finish
main-passes_iff outside = (
  λ h.
      let (outcome, attempted, shown, code) = finish-ok outside.output_shown (attempt outside) h in
      let (inputs, read, written, same) = attempt-ok outside outcome attempted in
      (
        inputs,
        read,
        written,
        shown,
        (exit_code-IsSound outside inputs).0 (ap exit_code same ∙ code),
      ),
  λ h.
      let (inputs, read, written, (path, shown), sound) = h in
      let code = (exit_code-IsSound outside inputs).1 sound in rw (read, written, shown, code) refl,
)
