-- ===== src/Requirements/Allocated.antt =====
-- tools/check_requirements.py: when a test is not allocated, and when a scenario names an unknown
-- requirement.
use astra_sim_fsw.Base.{
  Bool, true, not, List, [], ◌∷◌, ◌++◌, ◌≡◌, ◌↔◌, refl, sym, ap, ◌∙◌, inl, inr, Text, codes,
  text_eq, any, map, filter, length, arith, All, Bool-cases,
}
use astra_sim_fsw.Base.Dict.{Dict, has_key}
use astra_sim_fsw.Base.Sort.{length-sorted, sorted}
use astra_sim_fsw.Requirements.Problems.{
  sorted_texts, matrix_verification_tokens, reverse_test_allocation_problems,
}
use astra_sim_fsw.Requirements.Consistent.{append-nil_iff}
use astra_sim_fsw.Requirements.{Requirement, MatrixEntry}
use astra_sim_fsw.Requirements.Report.{ScenarioEvidence, unknown_in, unknown_references}

-- Every scenario names requirements of the document only.
abbrev pub AreKnown : Dict Requirement → List ScenarioEvidence → Type 0
AreKnown requirements scenarios =
    All (λ s. All (λ r. has_key r requirements ≡ true) s.requirements) scenarios

unknown_in_iff :
    (requirements : Dict Requirement) (scenario : ScenarioEvidence) (rs : List Text)
    → (unknown_in requirements scenario rs ≡ []) ↔ All (λ r. has_key r requirements ≡ true) rs
unfolding unknown_in
unknown_in_iff requirements scenario [] = (λ h. tt, λ h. refl)
unknown_in_iff requirements scenario (r ∷ rs) =
    let (there, back) = unknown_in_iff requirements scenario rs in
    elim (Bool-cases (has_key r requirements)) [
      | inl known ↦ rw (unknown_in, known) (λ h. (refl, there h), λ h. back h.1)
      | inr unknown ↦ rw (unknown_in, unknown) (λ h. absurd (cc (h)), λ h. absurd (cc (h.0)))
    ]

pub unknown_references_iff :
    (requirements : Dict Requirement) (scenarios : List ScenarioEvidence)
    → (unknown_references requirements scenarios ≡ []) ↔ AreKnown requirements scenarios
unfolding unknown_references
unknown_references_iff requirements [] = (λ h. tt, λ h. refl)
unknown_references_iff requirements (s ∷ ss) =
    let (there, back) = unknown_references_iff requirements ss in
    let (one, one') = unknown_in_iff requirements s s.requirements in
    let (both, both') =
      append-nil_iff (unknown_in requirements s s.requirements)
        (unknown_references requirements ss) in
    (λ h. (one (both h).0, there (both h).1), λ h. both' (one' h.0, back h.1))

-- Each test is among those that the matrix names.
abbrev pub AreAllocated : Dict MatrixEntry → List Text → Type 0
AreAllocated matrix tests =
    All (λ t. any (λ u. text_eq u t) (matrix_verification_tokens matrix) ≡ true) tests

unallocated_iff :
    (f : Text → Bool) (ts : List Text)
    → (filter (λ t. not (f t)) ts ≡ []) ↔ All (λ t. f t ≡ true) ts
unallocated_iff f [] = (λ h. tt, λ h. refl)
unallocated_iff f (t ∷ ts) =
    let (there, back) = unallocated_iff f ts in
    elim (Bool-cases (f t)) [
      | inl holds ↦ rw holds (λ h. (refl, there h), λ h. back h.1)
      | inr fails ↦ rw fails (λ h. absurd (cc (h)), λ h. absurd (cc (h.0)))
    ]

map-nil : (f : Text → Text) (ts : List Text) → map f ts ≡ [] → ts ≡ []
map-nil f [] h = refl
map-nil f (t ∷ ts) h = absurd (cc (h))

sorted_texts-nil : (ts : List Text) → sorted_texts ts ≡ [] → ts ≡ []
unfolding sorted_texts
sorted_texts-nil [] h = refl
sorted_texts-nil (t ∷ ts) h =
    absurd (omega (arith, sym (length-sorted (λ u. u) (t ∷ ts)) ∙ ap length h))

pub reverse_test_allocation_problems_iff :
    (tests : List Text) (matrix : Dict MatrixEntry)
    → (reverse_test_allocation_problems tests matrix ≡ []) ↔ AreAllocated matrix tests
unfolding reverse_test_allocation_problems sorted_texts sorted
reverse_test_allocation_problems_iff tests matrix =
    let allocated = matrix_verification_tokens matrix in
    let (there, back) = unallocated_iff (λ t. any (λ u. text_eq u t) allocated) tests in
    (
      λ h. there (sorted_texts-nil _ (map-nil _ _ h)),
      λ h.
          ap
            (λ ts.
              map (λ t. codes "Registered CTest has no requirement allocation: " ++ t)
                (sorted_texts ts))
            (back h),
    )
