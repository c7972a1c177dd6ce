-- ===== src/Requirements/Drift.antt =====
-- When the comparison with the reviewed baseline reports nothing.
use astra_sim_fsw.Base.{
  true, [], ◌≡◌, ◌↔◌, refl, ap, inl, inr, Option, none, some, Text, text_eq, text_eq_iff, All,
  Bool-cases,
}
use astra_sim_fsw.Base.Dict.{Dict, lookup, has_key, keys}
use astra_sim_fsw.Base.Json.{Value, str_of}
use astra_sim_fsw.Requirements.{Requirement}
use astra_sim_fsw.Requirements.Consistent.{
  append-nil_iff, keys_without-nil, common_keys-nil, has_key-some, has_key-found,
}
use astra_sim_fsw.Requirements.Baseline.{
  controlled_interface_paths, Digests, requirement_fingerprint, Payload, changed_requirement,
  changed_interface, reviewed_baseline_problems,
}

-- The requirement under an identifier has the reviewed fingerprint.
abbrev pub IsUnchanged : Digests → Dict Requirement → Payload → Text → Type 0
IsUnchanged digests requirements payload i =
    (r : Requirement) (v : Value)
    → lookup i requirements ≡ some r
    → lookup i payload.requirements ≡ some v
    → requirement_fingerprint digests r ≡ str_of digests.repr v

-- The file under a path is there and has the reviewed digest.
abbrev pub IsKept : Digests → Payload → Text → Type 0
IsKept digests payload p =
    (v : Value)
    → lookup p payload.controlled_interfaces ≡ some v
    → digests.of_file p ≡ some (str_of digests.repr v)

-- The requirements and the controlled interfaces are those of the review.
pub record IsReviewed (digests : Digests) (requirements : Dict Requirement) (payload : Payload)
    : Type 0 where
  pub none_added : All (λ i. has_key i payload.requirements ≡ true) (keys requirements)
  pub none_removed : All (λ i. has_key i requirements ≡ true) (keys payload.requirements)
  pub unchanged : All (IsUnchanged digests requirements payload) (keys requirements)
  pub none_missing :
      All (λ p. has_key p payload.controlled_interfaces ≡ true) (keys controlled_interface_paths)
  pub none_unexpected :
      All (λ p. has_key p controlled_interface_paths ≡ true) (keys payload.controlled_interfaces)
  pub kept : All (IsKept digests payload) (keys controlled_interface_paths)

changed_requirement-nil :
    (digests : Digests) (i : Text) (r : Requirement) (v : Value)
    → (changed_requirement digests i (some r) (some v) ≡ [])
      ↔ (requirement_fingerprint digests r ≡ str_of digests.repr v)
unfolding changed_requirement
changed_requirement-nil digests i r v =
    elim (Bool-cases (text_eq (requirement_fingerprint digests r) (str_of digests.repr v))) [
      | inl same ↦ rw same (λ h. (text_eq_iff _ _).0 same, λ h. refl)
      | inr other ↦ rw other (λ h. absurd (cc h), λ h. absurd (cc (other, (text_eq_iff _ _).1 h)))
    ]

requirement-IsUnchanged :
    (digests : Digests) (requirements : Dict Requirement) (payload : Payload) (i : Text)
    → (has_key i payload.requirements ≡ true
        → changed_requirement digests i (lookup i requirements) (lookup i payload.requirements)
          ≡ [])
      ↔ IsUnchanged digests requirements payload i
unfolding changed_requirement
requirement-IsUnchanged digests requirements payload i =
    (there, back (lookup i requirements) (lookup i payload.requirements) refl refl)
  where
    there :
        (has_key i payload.requirements ≡ true
          → changed_requirement digests i (lookup i requirements) (lookup i payload.requirements)
            ≡ [])
        → IsUnchanged digests requirements payload i
    there h r v found reviewed =
        (changed_requirement-nil digests i r v).0
          (rw (found, reviewed) at (h (has_key-some i payload.requirements reviewed)))

    back :
        (r : Option Requirement) (v : Option Value)
        → lookup i requirements ≡ r
        → lookup i payload.requirements ≡ v
        → IsUnchanged digests requirements payload i
        → has_key i payload.requirements ≡ true
        → changed_requirement digests i (lookup i requirements) (lookup i payload.requirements) ≡ []
    back none v found reviewed u has = rw found refl
    back (some r) none found reviewed u has = rw (found, reviewed) refl
    back (some r) (some v) found reviewed u has =
        rw (found, reviewed) ((changed_requirement-nil digests i r v).1 (u r v found reviewed))

changed_interface-nil :
    (digests : Digests) (p : Text) (actual : Option Text) (v : Value)
    → (changed_interface digests p actual (some v) ≡ []) ↔ (actual ≡ some (str_of digests.repr v))
unfolding changed_interface
changed_interface-nil digests p none v = (λ h. absurd (cc h), λ h. absurd (cc h))
changed_interface-nil digests p (some actual) v =
    elim (Bool-cases (text_eq actual (str_of digests.repr v))) [
      | inl same ↦ rw same (λ h. ap some ((text_eq_iff _ _).0 same), λ h. refl)
      | inr other ↦ rw other (
        λ h. absurd (cc h),
        λ h. absurd (cc (other, (text_eq_iff actual (str_of digests.repr v)).1 (cc h))),
      )
    ]

interface-IsKept :
    (digests : Digests) (payload : Payload) (p : Text)
    → (has_key p payload.controlled_interfaces ≡ true
        → changed_interface digests p (digests.of_file p) (lookup p payload.controlled_interfaces)
          ≡ [])
      ↔ IsKept digests payload p
interface-IsKept digests payload p = (
  (λ h v reviewed.
      (changed_interface-nil digests p (digests.of_file p) v).0
        (rw reviewed at (h (has_key-some p payload.controlled_interfaces reviewed)))),
  (λ k has.
      let (v, reviewed) = has_key-found p payload.controlled_interfaces has in
      rw reviewed ((changed_interface-nil digests p (digests.of_file p) v).1 (k v reviewed))),
)

-- The comparison with the reviewed baseline reports nothing exactly when no requirement was added
-- or removed, each has the reviewed fingerprint, the controlled interfaces of the baseline are
-- those of the list, and each is a file with the reviewed digest.
pub reviewed_baseline_problems_iff :
    (digests : Digests) (requirements : Dict Requirement) (payload : Payload)
    → (reviewed_baseline_problems digests requirements payload ≡ [])
      ↔ IsReviewed digests requirements payload
unfolding reviewed_baseline_problems
reviewed_baseline_problems_iff digests requirements payload =
    let (a, a') = append-nil_iff _ _ in
    let (b, b') = append-nil_iff _ _ in
    let (c, c') = append-nil_iff _ _ in
    let (d, d') = append-nil_iff _ _ in
    let (e, e') = append-nil_iff _ _ in
    let (added, added') = keys_without-nil _ requirements payload.requirements in
    let (removed, removed') = keys_without-nil _ payload.requirements requirements in
    let (changed, changed') =
      common_keys-nil _ requirements payload.requirements _
        (requirement-IsUnchanged digests requirements payload) in
    let (missing, missing') =
      keys_without-nil _ controlled_interface_paths payload.controlled_interfaces in
    let (unexpected, unexpected') =
      keys_without-nil _ payload.controlled_interfaces controlled_interface_paths in
    let (kept, kept') =
      common_keys-nil _ controlled_interface_paths payload.controlled_interfaces _
        (interface-IsKept digests payload) in
    (
      (λ h.
          let h1 = a h in
          let h2 = b h1.1 in
          let h3 = c h2.1 in
          let h4 = d h3.1 in
          let h5 = e h4.1 in
          record {
            none_added = added h1.0;
            none_removed = removed h2.0;
            unchanged = changed h3.0;
            none_missing = missing h4.0;
            none_unexpected = unexpected h5.0;
            kept = kept h5.1;
          }),
      (λ r. a' (
        added' r.none_added,
        b' (
          removed' r.none_removed,
          c' (
            changed' r.unchanged,
            d' (missing' r.none_missing, e' (unexpected' r.none_unexpected, kept' r.kept)),
          ),
        ),
      )),
    )
