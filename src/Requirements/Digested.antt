-- ===== src/Requirements/Digested.antt =====
-- The two objects of a baseline that tools/update_traceability_baseline.py writes.
use astra_sim_fsw.Base.{
  true, List, [], ◌∷◌, ◌≡◌, refl, ap, subst, inl, inr, none, some, Text, text_eq, text_eq_iff, All,
  Bool-cases, Option-cases, ok, ok-injective, >>=-ok,
}
use astra_sim_fsw.Base.Dict.{Dict, lookup, has_key, keys}
use astra_sim_fsw.Base.Json.{Value, str}
use astra_sim_fsw.Repository.{contains}
use astra_sim_fsw.Requirements.{Requirement}
use astra_sim_fsw.Requirements.Consistent.{has_key-found}
use astra_sim_fsw.Requirements.Baseline.{Digests, requirement_fingerprint}
use astra_sim_fsw.Requirements.Update.{interface_digests, fingerprints}

-- An entry that holds the fingerprint of the requirement under its key.
abbrev pub IsFingerprint : Digests → Dict Requirement → Text × Value → Type 0
IsFingerprint digests requirements e =
    (r : Requirement) × (lookup e.0 requirements ≡ some r)
    × (e.1 ≡ str (requirement_fingerprint digests r))

module _ (digests : Digests) (requirements : Dict Requirement) where
  pub fingerprints-IsFingerprint :
      (is : List Text)
      → All (IsFingerprint digests requirements) (fingerprints digests requirements is)
  unfolding fingerprints
  fingerprints-IsFingerprint [] = tt
  fingerprints-IsFingerprint (i ∷ is) = elim (Option-cases (lookup i requirements)) [
    | inl missing ↦ rw (fingerprints, missing) (fingerprints-IsFingerprint is)
    | inr (r, found) ↦ rw (fingerprints, found) ((r, found, refl), fingerprints-IsFingerprint is)
  ]

  -- A key that is found has an entry.
  pub fingerprints-has_key :
      (k : Text) (is : List Text)
      → has_key k requirements ≡ true
      → contains k is ≡ true
      → has_key k (fingerprints digests requirements is) ≡ true
  unfolding fingerprints has_key contains
  fingerprints-has_key k [] known there = absurd (cc (there))
  fingerprints-has_key k (i ∷ is) known there = elim (Option-cases (lookup i requirements)) [
    | inr (r, found) ↦
        rw (fingerprints, found)
          (elim (Bool-cases (text_eq i k)) [
            | inl same ↦ rw same refl
            | inr other ↦ rw other (fingerprints-has_key k is known (rw (contains, other) at there))
          ])
    | inl missing ↦
        rw (fingerprints, missing)
          (elim (Bool-cases (text_eq i k)) [
            | inl same ↦
                let (r, found) = has_key-found k requirements known in
                absurd (
                  cc (
                    subst (λ t. lookup t requirements ≡ none) ((text_eq_iff i k).0 same) missing,
                    found,
                  ))
            | inr other ↦ fingerprints-has_key k is known (rw (contains, other) at there)
          ])
  ]

-- An entry that holds the digest of the file under its key.
abbrev pub IsDigest : Digests → Text × Value → Type 0
IsDigest digests e = (s : Text) × (e.1 ≡ str s) × (digests.of_file e.0 ≡ some s)

pub interface_digests-IsDigest :
    (digests : Digests) (paths : List Text) (d : Dict Value)
    → interface_digests digests paths ≡ ok d
    → (keys d ≡ paths) × All (IsDigest digests) d
unfolding interface_digests
interface_digests-IsDigest digests [] d h =
    subst (λ e. (keys e ≡ []) × All (IsDigest digests) e) (ok-injective h) (refl, tt)
interface_digests-IsDigest digests (path ∷ paths) d h = elim (Option-cases (digests.of_file path)) [
  | inl missing ↦ absurd (cc (rw (interface_digests, missing) at h))
  | inr (s, found) ↦
      let (rest, e, made) =
        >>=-ok (interface_digests digests paths) _ (rw (interface_digests, found) at h) in
      let (same, all) = interface_digests-IsDigest digests paths rest e in
      subst (λ x. (keys x ≡ path ∷ paths) × All (IsDigest digests) x) (ok-injective made)
        (ap (◌∷◌ path) same, ((s, refl, found), all))
]
