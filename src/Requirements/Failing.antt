-- ===== src/Requirements/Failing.antt =====
-- tools/check_requirements.py: when a requirement gets the result FAIL.
use astra_sim_fsw.Base.{
  Bool, true, false, not, ◌||◌, List, [], ◌∷◌, ◌++◌, ◌≡◌, ◌≢◌, ◌↔◌, ◌⊎◌, refl, sym, subst, inl, inr,
  some, Text, codes, text_eq, text_eq_iff, any, map, All, Bool-cases, if◌then◌else◌,
}
use astra_sim_fsw.Base.Dict.{Dict, lookup, keys}
use astra_sim_fsw.Base.Sort.{All-sorted_iff}
use astra_sim_fsw.Conformance.Tables.{some_injective}
use astra_sim_fsw.Requirements.Problems.{sorted_texts}
use astra_sim_fsw.Requirements.Counted.{NoneFails, Found, keys-Found}
use astra_sim_fsw.Requirements.{Requirement, MatrixEntry}
use astra_sim_fsw.Requirements.Report.{
  ScenarioEvidence, named_in, linked_to, pass, manual, fail, disposition, status_row, pick,
  status_rows,
}

-- The scenario passed, or does not name the requirement.
abbrev pub PassesFor : Text → ScenarioEvidence → Type 0
PassesFor req_id scenario =
    (scenario.passed ≡ true) ⊎ All (λ r. text_eq r req_id ≡ false) scenario.requirements

-- The requirement is planned or historical, or no scenario that names it failed.
abbrev pub IsUnfailed : List ScenarioEvidence → Text → Requirement → Type 0
IsUnfailed scenarios req_id requirement =
    (requirement.status ≡ codes "Planned")
    ⊎ ((requirement.status ≡ codes "Historical") ⊎ All (PassesFor req_id) scenarios)

named_in_iff :
    (req_id : Text) (scenario : ScenarioEvidence) (rs : List Text)
    → (any (λ s. not s.passed) (named_in req_id scenario rs) ≡ false)
      ↔ ((scenario.passed ≡ true) ⊎ All (λ r. text_eq r req_id ≡ false) rs)
unfolding named_in
named_in_iff req_id scenario [] = (λ h. inr tt, λ h. refl)
named_in_iff req_id scenario (r ∷ rs) =
    let (there, back) = named_in_iff req_id scenario rs in
    elim (Bool-cases (text_eq r req_id)) [
      | inl named ↦ elim (Bool-cases scenario.passed) [
        | inl passed ↦ rw (named_in, named) (λ h. inl passed, λ h. rw passed (back (inl passed)))
        | inr failed ↦
            rw (named_in, named)
              (
                λ h. absurd (cc (rw failed at h)),
                λ h. elim h [
                  | inl passed ↦ absurd (cc (failed, passed))
                  | inr all ↦ absurd (cc (named, all.0))
                ],
              )
      ]
      | inr other ↦
          rw (named_in, other)
            (
              λ h. elim (there h) [ inl passed ↦ inl passed | inr all ↦ inr (refl, all) ],
              λ h. elim h [ inl passed ↦ back (inl passed) | inr all ↦ back (inr all.1) ],
            )
    ]

any-append_iff :
    (f : ScenarioEvidence → Bool) (xs ys : List ScenarioEvidence)
    → (any f (xs ++ ys) ≡ false) ↔ ((any f xs ≡ false) × (any f ys ≡ false))
any-append_iff f [] ys = (λ h. (refl, h), λ h. h.1)
any-append_iff f (x ∷ xs) ys =
    let (there, back) = any-append_iff f xs ys in
    elim (Bool-cases (f x)) [
      | inl holds ↦ rw holds (λ h. absurd (cc (h)), λ h. absurd (cc (h.0)))
      | inr fails ↦ rw fails (there, back)
    ]

linked_to_iff :
    (req_id : Text) (scenarios : List ScenarioEvidence)
    → (any (λ s. not s.passed) (linked_to req_id scenarios) ≡ false)
      ↔ All (PassesFor req_id) scenarios
unfolding linked_to
linked_to_iff req_id [] = (λ h. tt, λ h. refl)
linked_to_iff req_id (s ∷ ss) =
    let (there, back) = linked_to_iff req_id ss in
    let (one, one') = named_in_iff req_id s s.requirements in
    let (both, both') =
      any-append_iff (λ t. not t.passed) (named_in req_id s s.requirements) (linked_to req_id ss) in
    (λ h. (one (both h).0, there (both h).1), λ h. both' (one' h.0, back h.1))

pass-or-manual : (b : Bool) → (if b then pass else manual) ≢ fail
pass-or-manual true e = cc e
pass-or-manual false e = cc e

disposition_iff :
    (requirement : Requirement) (req_id : Text) (scenarios : List ScenarioEvidence)
    (evidence_passed : Bool)
    → (disposition requirement (linked_to req_id scenarios) evidence_passed ≢ fail)
      ↔ IsUnfailed scenarios req_id requirement
unfolding disposition
disposition_iff requirement req_id scenarios evidence_passed =
    let linked = linked_to req_id scenarios in
    let is_planned = text_eq_iff requirement.status (codes "Planned") in
    let is_historical = text_eq_iff requirement.status (codes "Historical") in
    let (there, back) = linked_to_iff req_id scenarios in
    elim (Bool-cases (text_eq requirement.status (codes "Planned"))) [
      | inl now ↦ rw now (λ h. inl (is_planned.0 now), λ h e. cc e)
      | inr other ↦ elim (Bool-cases (text_eq requirement.status (codes "Historical"))) [
        | inl now ↦ rw (other, now) (λ h. inr (inl (is_historical.0 now)), λ h e. cc e)
        | inr another ↦ elim (Bool-cases (any (λ s. not s.passed) linked)) [
          | inl failed ↦
              rw (other, another, failed)
                (
                  λ h. absurd (h refl),
                  λ h e. elim h [
                    | inl planned_now ↦ cc (other, is_planned.1 planned_now)
                    | inr (inl historical_now) ↦ cc (another, is_historical.1 historical_now)
                    | inr (inr all) ↦ cc (failed, back all)
                  ],
                )
          | inr none_failed ↦
              rw (other, another, none_failed)
                (
                  λ h. inr (inr (there none_failed)),
                  λ h. pass-or-manual (any (λ s. s.passed) linked || evidence_passed),
                )
        ]
      ]
    ]

-- No requirement at the keys failed.
abbrev pub AreUnfailed : Dict Requirement → List ScenarioEvidence → List Text → Type 0
AreUnfailed requirements scenarios ids =
    All (λ i. (r : Requirement) × (lookup i requirements ≡ some r) × IsUnfailed scenarios i r) ids

rows-AreUnfailed :
    (evidence_passed : Text → Bool) (requirements : Dict Requirement) (matrix : Dict MatrixEntry)
    (scenarios : List ScenarioEvidence) (ids : List Text)
    → All (Found requirements) ids
    → NoneFails (map (status_row evidence_passed matrix scenarios) (pick requirements ids))
      ↔ AreUnfailed requirements scenarios ids
unfolding pick Found status_row
rows-AreUnfailed evidence_passed requirements matrix scenarios [] found = (λ h. tt, λ h. tt)
rows-AreUnfailed evidence_passed requirements matrix scenarios (i ∷ is) ((r, here), found) =
    let (there, back) = rows-AreUnfailed evidence_passed requirements matrix scenarios is found in
    let (one, one') = disposition_iff r i scenarios (evidence_passed r.evidence) in
    rw (pick, here)
      (
        λ h. ((r, refl, one h.0), there h.1),
        λ h.
            let ((q, same, unfailed), others) = h in
            (
              one' (
                  subst (λ (x : Requirement). IsUnfailed scenarios i x) (sym (some_injective same))
                    unfailed),
              back others,
            ),
      )

-- No row fails exactly where every requirement is planned or historical, or no scenario that names
-- it failed.
pub status_rows-AreUnfailed :
    (evidence_passed : Text → Bool) (requirements : Dict Requirement) (matrix : Dict MatrixEntry)
    (scenarios : List ScenarioEvidence)
    → NoneFails (status_rows evidence_passed requirements matrix scenarios)
      ↔ AreUnfailed requirements scenarios (keys requirements)
unfolding status_rows sorted_texts
status_rows-AreUnfailed evidence_passed requirements matrix scenarios =
    let ids = sorted_texts (keys requirements) in
    let found =
      (All-sorted_iff (λ t. t) (Found requirements) (keys requirements)).1
        (keys-Found requirements) in
    let (there, back) = rows-AreUnfailed evidence_passed requirements matrix scenarios ids found in
    let (of_keys, to_keys) =
      All-sorted_iff (λ t. t)
        (λ i. (r : Requirement) × (lookup i requirements ≡ some r) × IsUnfailed scenarios i r)
        (keys requirements) in
    (λ h. of_keys (there h), λ h. back (to_keys h))
