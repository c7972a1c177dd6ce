-- ===== src/Campaign/Fdir/Exit.antt =====
-- tools/run_fdir_campaign.py: when the campaign writes its report, and when it returns 0.
use astra_sim_fsw.Base.{
  ℕ, ◌+◌, Bool, true, false, not, List, [], ◌∷◌, ◌≡◌, ◌↔◌, refl, arith, some, Text, Result, ok, err,
  ◌>>=◌, >>=-ok, count_if,
}
use astra_sim_fsw.Base.Int.{pos}
use astra_sim_fsw.Campaign.{
  nothing, text, bytes, Child, finished, timed_out, Outside, joined_path, relative_to, exit_code,
  exit_code-zero_iff, is_passed,
}
use astra_sim_fsw.Campaign.Fdir.{
  FaultCase, fault_cases, scenario_for, CaseResult, timeout_text, case_result, run_case, run_cases,
  write_report, after_report, conclude, main,
}

-- The child was started and returned, or timed out with no bytes captured.
abbrev pub is_recorded : Result Child → Bool
is_recorded (err e) = false
is_recorded (ok (finished code output)) = true
is_recorded (ok (timed_out nothing)) = true
is_recorded (ok (timed_out (text captured))) = true
is_recorded (ok (timed_out (bytes []))) = true
is_recorded (ok (timed_out (bytes (b ∷ captured)))) = false

-- A test holds of the children of all the cases, from the index of the first.
abbrev pub Children : (Result Child → Bool) → Outside → ℕ → List FaultCase → Type 0
Children test outside index [] = Unit
Children test outside index (case ∷ cases) =
    (test (outside.child index (scenario_for case index)) ≡ true)
    × Children test outside (1 + index) cases

-- What a child gives a result, and whether that counts as passed.
abbrev Given : Result Child → Result CaseResult → Type 0
Given child (err e) = is_recorded child ≡ false
Given child (ok r) = (is_recorded child ≡ true) × (r.passed ≡ is_passed child)

run_case-Given :
    (outside : Outside) (index : ℕ) (case : FaultCase)
    → Given (outside.child index (scenario_for case index)) (run_case outside index case)
unfolding run_case case_result timeout_text
run_case-Given outside index case = go (outside.child index (scenario_for case index))
  where
    go : (child : Result Child) → Given child (child >>= case_result case)
    go (err e) = refl
    go (ok (finished code output)) = (refl, refl)
    go (ok (timed_out nothing)) = (refl, refl)
    go (ok (timed_out (text captured))) = (refl, refl)
    go (ok (timed_out (bytes []))) = (refl, refl)
    go (ok (timed_out (bytes (b ∷ captured)))) = refl

failures : List CaseResult → ℕ
failures results = count_if (λ r. not r.passed) results

-- What the loop gives: its results where all children are recorded, and no failure among them
-- exactly where all passed.
abbrev Summed : Outside → ℕ → List FaultCase → Result (List CaseResult) → Type 0
Summed outside index cases (err e) = Children is_recorded outside index cases → ⊥
Summed outside index cases (ok rs) =
    Children is_recorded outside index cases
    × ((failures rs ≡ 0) ↔ Children is_passed outside index cases)

-- A case before the others.
cons-Summed :
    (outside : Outside) (index : ℕ) (case : FaultCase) (cases : List FaultCase)
    (this : Result CaseResult) (rest : Result (List CaseResult))
    → Given (outside.child index (scenario_for case index)) this
    → Summed outside (1 + index) cases rest
    → Summed outside index (case ∷ cases) (this >>= λ r. rest >>= λ rs. ok (r ∷ rs))
unfolding failures
cons-Summed outside index case cases (err e) rest lost others = λ all. cc (lost, all.0)
cons-Summed outside index case cases (ok r) (err e) found others = λ all. others all.1
cons-Summed outside index case cases (ok r) (ok rs) (recorded, same) (all, (there, back)) = (
  (recorded, all),
  (
    λ none_failed. (ground arith, there (ground arith)),
    λ passed. let others = back passed.1 in let one = passed.0 in ground arith,
  ),
)

run_cases-Summed :
    (outside : Outside) (index : ℕ) (cases : List FaultCase)
    → Summed outside index cases (run_cases outside index cases)
unfolding run_cases failures
run_cases-Summed outside index [] = (tt, (λ h. tt, λ h. refl))
run_cases-Summed outside index (case ∷ cases) =
    cons-Summed outside index case cases (run_case outside index case)
      (run_cases outside (1 + index) cases) (run_case-Given outside index case)
      (run_cases-Summed outside (1 + index) cases)

passed_recorded : (child : Result Child) → is_passed child ≡ true → is_recorded child ≡ true
passed_recorded (err e) h = absurd (cc (h))
passed_recorded (ok (finished code output)) h = refl
passed_recorded (ok (timed_out captured)) h = absurd (cc (h))

passed-Children :
    (outside : Outside) (index : ℕ) (cases : List FaultCase)
    → Children is_passed outside index cases
    → Children is_recorded outside index cases
passed-Children outside index [] all = tt
passed-Children outside index (case ∷ cases) (one, all) =
    (passed_recorded _ one, passed-Children outside (1 + index) cases all)

module _ (outside : Outside) (root build_dir path : Text) (cases : List FaultCase)
    (writes : (path written : Text) → outside.write path written ≡ ok tt) where
  conclude-report :
      (rs : Result (List CaseResult))
      → Summed outside 0 cases rs
      → ((written : Text) × ((conclude outside root build_dir path rs).report ≡ some written))
        ↔ Children is_recorded outside 0 cases
  unfolding conclude after_report
  conclude-report (err e) lost = (λ h. absurd (cc (h.1)), λ all. absurd (lost all))
  conclude-report (ok rs) (all, counted) = (
    λ h. all,
    λ _. (
      write_report build_dir rs,
      rw (after_report, writes path (write_report build_dir rs)) refl,
    ),
  )

  conclude-result :
      (rs : Result (List CaseResult))
      → Summed outside 0 cases rs
      → ((conclude outside root build_dir path rs).result ≡ ok (pos 0)) ↔ (
          Children is_passed outside 0 cases
          × ((shown : Text) × (relative_to root path ≡ ok shown)))
  unfolding conclude after_report failures
  conclude-result (err e) lost =
      (λ h. absurd (cc (h)), λ all. absurd (lost (passed-Children outside 0 cases all.0)))
  conclude-result (ok rs) (all, (there, back)) =
      rw (after_report, writes path (write_report build_dir rs))
        (
          λ h.
              let (shown, under, code) =
                >>=-ok (relative_to root path) (λ shown. ok (exit_code (failures rs))) h in
              (there ((exit_code-zero_iff (failures rs)).0 code), (shown, under)),
          λ h.
              let (passed, (shown, under)) = h in
              rw under ((exit_code-zero_iff (failures rs)).1 (back passed)),
        )

-- Where the report can be written, it is written exactly when every case's child was started and
-- returned, or timed out without captured bytes; and `main` returns 0 exactly when every child
-- returned 0 and the report's path lies under the root.
pub main-Children :
    (outside : Outside) (root build_dir output : Text)
    → ((path written : Text) → outside.write path written ≡ ok tt)
    → (((written : Text) × ((main outside root build_dir output).report ≡ some written))
        ↔ Children is_recorded outside 0 fault_cases)
      × (((main outside root build_dir output).result ≡ ok (pos 0)) ↔ (
          Children is_passed outside 0 fault_cases
          × ((shown : Text) × (relative_to root (joined_path root output) ≡ ok shown))))
unfolding main
main-Children outside root build_dir output writes =
    let summed = run_cases-Summed outside 0 fault_cases in
    let path = joined_path root output in
    (
      conclude-report outside root build_dir path fault_cases writes
          (run_cases outside 0 fault_cases) summed,
      conclude-result outside root build_dir path fault_cases writes
          (run_cases outside 0 fault_cases) summed,
    )
