-- ===== src/Requirements/Rebuilt.antt =====
-- A baseline that tools/update_traceability_baseline.py wrote, read by tools/check_requirements.py.
use astra_sim_fsw.Base.{
  true, List, [], ◌∷◌, ◌≡◌, refl, sym, ap, subst, ◌∙◌, some, Text, codes, text_eq, text_leb, All,
  Result, ok, err, os_error, value_error, ok-injective, >>=-ok,
}
use astra_sim_fsw.Base.Dict.{Dict, has_key, keys}
use astra_sim_fsw.Base.Sort.{sorted, insert_sorted, All-sorted_iff}
use astra_sim_fsw.Base.Json.{
  Value, str, obj, object, sort_keys, sort_fields, entries, str_of, get, equals_text,
}
use astra_sim_fsw.Repository.{contains}
use astra_sim_fsw.Repository.Source.{contains-All, pointwise}
use astra_sim_fsw.Requirements.{Requirement}
use astra_sim_fsw.Requirements.Consistent.{has_key-some}
use astra_sim_fsw.Requirements.Baseline.{
  controlled_interface_paths, traceability_schema, Digests, Payload, payload_objects, has_schema,
  read_traceability_payload, reviewed_baseline_problems,
}
use astra_sim_fsw.Requirements.Drift.{
  IsUnchanged, IsKept, IsReviewed, reviewed_baseline_problems_iff,
}
use astra_sim_fsw.Requirements.Update.{
  interface_digests, fingerprints, build_traceability_payload, finish, main, review_note,
}
use astra_sim_fsw.Requirements.Entries.{
  key_of, lookup-All, has_key-sorted, IsText, sort_fields-object, entries-object, keys_known,
  keys_sorted, All-keys, keys-All, All-sorted-keys,
}
use astra_sim_fsw.Requirements.Digested.{
  IsFingerprint, fingerprints-IsFingerprint, fingerprints-has_key, IsDigest,
  interface_digests-IsDigest,
}

-- The payload of two objects, and what is read back of it.
written_payload : Dict Value → Dict Value → Value
written_payload requirements interfaces = obj (
    object (
      (codes "schema", str traceability_schema)
      ∷ (codes "requirements", obj (object requirements))
      ∷ (codes "controlled_interfaces", obj (object interfaces))
      ∷ (codes "review_note", str review_note)
      ∷ []))

read-written_payload :
    (path : Text) (a b : Dict Value)
    → read_traceability_payload path (ok (sort_keys (written_payload a b)))
      ≡ ok (record {
        requirements = entries (object (sorted key_of (sort_fields (object a))));
        controlled_interfaces = entries (object (sorted key_of (sort_fields (object b))));
      })
unfolding written_payload read_traceability_payload has_schema payload_objects sort_keys sort_fields
    sorted insert_sorted text_leb get equals_text text_eq codes
read-written_payload path a b = refl

-- What is read back of entries that are texts.
read_back :
    (d : Dict Value)
    → All IsText d
    → entries (object (sorted key_of (sort_fields (object d)))) ≡ sorted key_of d
read_back d all =
    ap (λ x. entries (object (sorted key_of x))) (sort_fields-object d all)
    ∙ entries-object (sorted key_of d)

read-texts :
    (path : Text) (a b : Dict Value)
    → All IsText a
    → All IsText b
    → read_traceability_payload path (ok (sort_keys (written_payload a b)))
      ≡ ok (record { requirements = sorted key_of a; controlled_interfaces = sorted key_of b })
read-texts path a b all_a all_b =
    subst
      (λ x.
        read_traceability_payload path (ok (sort_keys (written_payload a b)))
        ≡ ok (record { requirements = x; controlled_interfaces = sorted key_of b }))
      (read_back a all_a)
      (subst
        (λ y.
          read_traceability_payload path (ok (sort_keys (written_payload a b)))
          ≡ ok (record {
            requirements = entries (object (sorted key_of (sort_fields (object a))));
            controlled_interfaces = y;
          }))
        (read_back b all_b) (read-written_payload path a b))

All-weaken {ℓ} :
    {A : Type ℓ} (P Q : A → Type 0) (xs : List A) → ((x : A) → P x → Q x) → All P xs → All Q xs
All-weaken P Q [] f all = tt
All-weaken P Q (x ∷ xs) f (one, all) = (f x one, All-weaken P Q xs f all)

module _ (digests : Digests) (requirements : Dict Requirement) (interfaces : Dict Value)
    (same : keys interfaces ≡ keys controlled_interface_paths)
    (digested : All (IsDigest digests) interfaces) where
  rebuilt : Payload
  rebuilt = record {
    requirements =
        sorted key_of (fingerprints digests requirements (sorted (λ i. i) (keys requirements)));
    controlled_interfaces = sorted key_of interfaces;
  }

  rebuilt_added : All (λ i. has_key i rebuilt.requirements ≡ true) (keys requirements)
  unfolding rebuilt
  rebuilt_added =
      let ks = sorted (λ i. i) (keys requirements) in
      let known =
        (All-sorted_iff (λ i. i) (λ i. has_key i requirements ≡ true) (keys requirements)).1
          (keys_known requirements) in
      pointwise (λ i. contains i ks ≡ true) _ (keys requirements)
        (λ i there.
          has_key-sorted i (fingerprints digests requirements ks)
          ∙ fingerprints-has_key digests requirements i ks
              (contains-All (λ i. has_key i requirements ≡ true) i ks there known) there)
        (keys_sorted (keys requirements))

  rebuilt_fingerprints : All (IsFingerprint digests requirements) rebuilt.requirements
  unfolding rebuilt
  rebuilt_fingerprints =
      (All-sorted_iff key_of (IsFingerprint digests requirements) _).1
        (fingerprints-IsFingerprint digests requirements (sorted (λ i. i) (keys requirements)))

  rebuilt-IsReviewed : IsReviewed digests requirements rebuilt
  unfolding rebuilt str_of
  rebuilt-IsReviewed = record {
    none_added = rebuilt_added;
    none_removed =
        All-keys (λ i. has_key i requirements ≡ true) rebuilt.requirements
          (All-weaken (IsFingerprint digests requirements) (λ e. has_key e.0 requirements ≡ true)
            rebuilt.requirements (λ e f. has_key-some e.0 requirements f.1) rebuilt_fingerprints);
    unchanged = each (keys requirements);
    none_missing = subst (All (λ p. has_key p (sorted key_of interfaces) ≡ true)) same (
        pointwise (λ p. has_key p interfaces ≡ true) _ (keys interfaces)
          (λ p h. has_key-sorted p interfaces ∙ h) (keys_known interfaces));
    none_unexpected =
        All-sorted-keys (λ p. has_key p controlled_interface_paths ≡ true) interfaces
          (keys-All (λ p. has_key p controlled_interface_paths ≡ true) interfaces
            (subst (All (λ p. has_key p controlled_interface_paths ≡ true)) (sym same)
              (keys_known controlled_interface_paths)));
    kept = kept_each (keys controlled_interface_paths);
  }
    where
      each : (is : List Text) → All (IsUnchanged digests requirements rebuilt) is
      each [] = tt
      each (i ∷ is) = (
        λ r v found reviewed.
            let (s, known, e) =
              lookup-All (IsFingerprint digests requirements) i rebuilt.requirements v
                rebuilt_fingerprints reviewed in
            let one : r ≡ s = cc (found, known) in rw (e, one) refl,
        each is,
      )

      kept_each : (ps : List Text) → All (IsKept digests rebuilt) ps
      kept_each [] = tt
      kept_each (p ∷ ps) = (
        λ v reviewed.
            let (s, e, found) =
              lookup-All (IsDigest digests) p (sorted key_of interfaces) v
                ((All-sorted_iff key_of (IsDigest digests) interfaces).1 digested) reviewed in
            rw e found,
        kept_each ps,
      )

finish-some :
    (shown : Result Text) (r : Result Value) (payload : Value)
    → (finish shown r).0 ≡ some payload
    → r ≡ ok payload
unfolding finish
finish-some shown (err (os_error m)) payload h = absurd (cc (h))
finish-some shown (err (value_error m)) payload h = absurd (cc (h))
finish-some shown (err _) payload h = absurd (cc (h))
finish-some shown (ok v) payload h = cc (h)

-- A baseline that `update_traceability_baseline.py` writes, with its keys sorted, is read back, and
-- the comparison of the same requirements with it reports nothing.
pub main-reviewed :
    (digests : Digests) (shown : Result Text) (requirements : Dict Requirement) (path : Text)
    (payload : Value)
    → (main digests shown (ok requirements)).0 ≡ some payload
    → (p : Payload) × (read_traceability_payload path (ok (sort_keys payload)) ≡ ok p)
      × (reviewed_baseline_problems digests requirements p ≡ [])
unfolding main build_traceability_payload written_payload rebuilt
main-reviewed digests shown requirements path payload h =
    let built = finish-some shown (build_traceability_payload digests requirements) payload h in
    let (interfaces, made, e) =
      >>=-ok (interface_digests digests (keys controlled_interface_paths)) _ built in
    let (same, digested) =
      interface_digests-IsDigest digests (keys controlled_interface_paths) interfaces made in
    let printed =
      fingerprints-IsFingerprint digests requirements (sorted (λ i. i) (keys requirements)) in
    let a = fingerprints digests requirements (sorted (λ i. i) (keys requirements)) in
    (
      rebuilt digests requirements interfaces same digested,
      ap (λ v. read_traceability_payload path (ok (sort_keys v))) (sym (ok-injective e))
          ∙ read-texts path a interfaces
              (All-weaken (IsFingerprint digests requirements) IsText a (λ e f. (_, f.2)) printed)
              (All-weaken (IsDigest digests) IsText interfaces (λ e f. (f.0, f.1)) digested),
      (reviewed_baseline_problems_iff digests requirements _).1
          (rebuilt-IsReviewed digests requirements interfaces same digested),
    )
