-- ===== src/Requirements/Counted.antt =====
-- The counts of the report, and what the exit code zero says.
use astra_sim_fsw.Base.{
  ℕ, suc, ◌+◌, Bool, List, [], ◌∷◌, map, ◌≡◌, ◌≢◌, ◌↔◌, ◌⊎◌, refl, sym, ap, ◌∙◌, arith, inl, inr,
  some, Text, text_eq, text_eq_refl, length, All, ◌==◌, ==_iff, Bool-cases,
}
use astra_sim_fsw.Base.Dict.{Dict, lookup, keys}
use astra_sim_fsw.Base.Sort.{All-sorted_iff, length-sorted}
use astra_sim_fsw.Requirements.{Requirement, MatrixEntry}
use astra_sim_fsw.Requirements.Problems.{
  sorted_texts, matrix_consistency_problems, reverse_test_allocation_problems,
}
use astra_sim_fsw.Requirements.Consistent.{
  IsConsistent, matrix_consistency_problems_iff, append-nil_iff,
}
use astra_sim_fsw.Requirements.Report.{
  ScenarioEvidence, unknown_references, Disposition, pass, manual, planned, historical, fail,
  Counts, no_counts, count_result, StatusRow, status_row, status_rows, pick, count_rows, Outcome,
  write_report, exit_code,
}

-- All requirements that the counts hold.
abbrev pub total : Counts → ℕ
total c = c.pass_count + c.manual_count + c.planned_count + c.historical_count + c.fail_count

count_result-total : (d : Disposition) (c : Counts) → total (count_result d c) ≡ 1 + total c
unfolding count_result
count_result-total pass c = omega arith
count_result-total manual c = omega arith
count_result-total planned c = omega arith
count_result-total historical c = omega arith
count_result-total fail c = omega arith

count_rows-total :
    (c : Counts) (rows : List StatusRow) → total (count_rows c rows) ≡ total c + length rows
unfolding count_rows
count_rows-total c [] = omega arith
count_rows-total c (row ∷ rows) =
    omega
      (arith, count_rows-total (count_result row.result c) rows, count_result-total row.result c)

unfoldable pub Found : Dict Requirement → Text → Type 0
Found d i = (r : Requirement) × (lookup i d ≡ some r)

cons-Found :
    (k : Text) (r : Requirement) (d : Dict Requirement) (i : Text)
    → Found d i
    → Found ((k, r) ∷ d) i
unfolding Found lookup
cons-Found k r d i (q, found) = elim (Bool-cases (text_eq k i)) [
  | inl same ↦ (r, rw same refl)
  | inr other ↦ (q, rw other found)
]

All-cons-Found :
    (k : Text) (r : Requirement) (d : Dict Requirement) (is : List Text)
    → All (Found d) is
    → All (Found ((k, r) ∷ d)) is
All-cons-Found k r d [] all = tt
All-cons-Found k r d (i ∷ is) (one, all) = (cons-Found k r d i one, All-cons-Found k r d is all)

pub keys-Found : (d : Dict Requirement) → All (Found d) (keys d)
unfolding Found lookup
keys-Found [] = tt
keys-Found ((k, r) ∷ d) =
    ((r, rw (text_eq_refl k) refl), All-cons-Found k r d (keys d) (keys-Found d))

length-pick :
    (d : Dict Requirement) (is : List Text) → All (Found d) is → length (pick d is) ≡ length is
unfolding pick Found
length-pick d [] all = refl
length-pick d (i ∷ is) ((r, found), all) = rw (pick, found) (ap suc (length-pick d is all))

length-map {ℓ κ} :
    {A : Type ℓ} {B : Type κ} (f : A → B) (xs : List A) → length (map f xs) ≡ length xs
length-map f [] = refl
length-map f (x ∷ xs) = ap suc (length-map f xs)

length-keys : (d : Dict Requirement) → length (keys d) ≡ length d
length-keys [] = refl
length-keys ((k, r) ∷ d) = ap suc (length-keys d)

-- The five counts of a report add up to the number of requirements, and so do its rows.
pub write_report-total :
    (evidence_passed : Text → Bool) (requirements : Dict Requirement) (matrix : Dict MatrixEntry)
    (scenarios : List ScenarioEvidence) (registered_tests drift : List Text)
    → (total
          (write_report evidence_passed requirements matrix scenarios registered_tests drift).counts
        ≡ length requirements)
      × (length
            (write_report evidence_passed requirements matrix scenarios registered_tests drift).rows
          ≡ length requirements)
unfolding write_report status_rows sorted_texts
write_report-total evidence_passed requirements matrix scenarios registered_tests drift =
    let ids = sorted_texts (keys requirements) in
    let found =
      (All-sorted_iff (λ t. t) (Found requirements) (keys requirements)).1
        (keys-Found requirements) in
    let rows : length (status_rows evidence_passed requirements matrix scenarios)
        ≡ length requirements =
      length-map (status_row evidence_passed matrix scenarios) (pick requirements ids)
      ∙ length-pick requirements ids found
      ∙ length-sorted (λ t. t) (keys requirements)
      ∙ length-keys requirements in
    (
      omega (
        arith,
        count_rows-total no_counts (status_rows evidence_passed requirements matrix scenarios),
        rows,
      ),
      rows,
    )

-- No row of the list fails.
abbrev pub NoneFails : List StatusRow → Type 0
NoneFails rows = All (λ row. row.result ≢ fail) rows

fail_count-result :
    (d : Disposition) (c : Counts)
    → (d ≢ fail → (count_result d c).fail_count ≡ c.fail_count)
      × (d ≡ fail → (count_result d c).fail_count ≡ c.fail_count + 1)
unfolding count_result
fail_count-result fail c = (λ ne. absurd (ne refl), λ e. refl)
fail_count-result pass c = (λ ne. refl, λ e. absurd (cc e))
fail_count-result manual c = (λ ne. refl, λ e. absurd (cc e))
fail_count-result planned c = (λ ne. refl, λ e. absurd (cc e))
fail_count-result historical c = (λ ne. refl, λ e. absurd (cc e))

fail-cases : (d : Disposition) → (d ≡ fail) ⊎ (d ≢ fail)
fail-cases fail = inl refl
fail-cases pass = inr (λ e. cc e)
fail-cases manual = inr (λ e. cc e)
fail-cases planned = inr (λ e. cc e)
fail-cases historical = inr (λ e. cc e)

count_rows-NoneFails :
    (c : Counts) (rows : List StatusRow)
    → ((count_rows c rows).fail_count ≡ 0) ↔ ((c.fail_count ≡ 0) × NoneFails rows)
unfolding count_rows
count_rows-NoneFails c [] = (λ h. (h, tt), λ h. h.0)
count_rows-NoneFails c (row ∷ rows) =
    let (there, back) = count_rows-NoneFails (count_result row.result c) rows in
    let (same, more) = fail_count-result row.result c in
    elim (fail-cases row.result) [
      | inl failed ↦
          (λ h. absurd (omega (arith, more failed, (there h).0)), λ h. absurd (h.1.0 failed))
      | inr ne ↦
          (λ h. (sym (same ne) ∙ (there h).0, (ne, (there h).1)), λ h. back (same ne ∙ h.0, h.1.1))
    ]

exit_code_iff :
    (outcome : Outcome)
    → (exit_code outcome ≡ 0) ↔ ((outcome.problems ≡ []) × (outcome.counts.fail_count ≡ 0))
unfolding exit_code
exit_code_iff outcome = go outcome.problems refl
  where
    go :
        (problems : List Text)
        → outcome.problems ≡ problems
        → (exit_code outcome ≡ 0) ↔ ((outcome.problems ≡ []) × (outcome.counts.fail_count ≡ 0))
    go [] e = elim (Bool-cases (outcome.counts.fail_count == 0)) [
      | inl zero ↦ rw (exit_code, e, zero) (λ h. (refl, (==_iff _ _).0 zero), λ h. refl)
      | inr some_fail ↦
          rw (exit_code, e, some_fail)
            (λ h. absurd (omega arith), λ h. absurd (cc (some_fail, (==_iff _ _).1 h.1)))
    ]
    go (p ∷ problems) e = rw (exit_code, e) (λ h. absurd (omega arith), λ h. absurd (cc (h.0)))

-- The check ends with exit code 0 exactly when the matrix and the requirements agree, each
-- registered test is allocated, nothing drifted from the reviewed baseline, no scenario names an
-- unknown requirement, and no requirement has a failed scenario.
pub exit_code-write_report_iff :
    (evidence_passed : Text → Bool) (requirements : Dict Requirement) (matrix : Dict MatrixEntry)
    (scenarios : List ScenarioEvidence) (registered_tests drift : List Text)
    → (exit_code (write_report evidence_passed requirements matrix scenarios registered_tests drift)
        ≡ 0)
      ↔ (IsConsistent requirements matrix
          × (reverse_test_allocation_problems registered_tests matrix ≡ [])
          × (drift ≡ [])
          × (unknown_references requirements scenarios ≡ [])
          × NoneFails (status_rows evidence_passed requirements matrix scenarios))
unfolding write_report
exit_code-write_report_iff evidence_passed requirements matrix scenarios registered_tests drift =
    let outcome =
      write_report evidence_passed requirements matrix scenarios registered_tests drift in
    let rows = status_rows evidence_passed requirements matrix scenarios in
    let (there, back) = exit_code_iff outcome in
    let (a, a') = append-nil_iff (matrix_consistency_problems requirements matrix) _ in
    let (b, b') = append-nil_iff (reverse_test_allocation_problems registered_tests matrix) _ in
    let (c, c') = append-nil_iff drift (unknown_references requirements scenarios) in
    let (m, m') = matrix_consistency_problems_iff requirements matrix in
    let (n, n') = count_rows-NoneFails no_counts rows in
    (
      (λ h.
          let p = there h in
          let q = a p.0 in let r = b q.1 in let s = c r.1 in (m q.0, r.0, s.0, s.1, (n p.1).1)),
      (λ h.
          let (consistent, allocated, kept, known, none_fails) = h in
          back (a' (m' consistent, b' (allocated, c' (kept, known))), n' (refl, none_fails))),
    )
