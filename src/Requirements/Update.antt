-- ===== src/Requirements/Update.antt =====
-- tools/update_traceability_baseline.py, and build_traceability_payload of
-- tools/traceability_baseline.py.
use astra_sim_fsw.Base.{
  ℕ, List, [], ◌∷◌, ◌++◌, Option, none, some, Text, codes, Result, ok, err, value_error, os_error,
  ◌>>=◌,
}
use astra_sim_fsw.Base.Dict.{Dict, lookup, keys}
use astra_sim_fsw.Base.Sort.{sorted}
use astra_sim_fsw.Base.Json.{Value, str, obj, object}
use astra_sim_fsw.Requirements.{Requirement}
use astra_sim_fsw.Requirements.Baseline.{
  Digests, requirement_fingerprint, traceability_schema, controlled_interface_paths,
}

-- The loop over the controlled interfaces.
unfoldable pub interface_digests : Digests → List Text → Result (Dict Value)
interface_digests digests [] = ok []
interface_digests digests (path ∷ paths) = elim (digests.of_file path) [
  | none ↦ err (value_error (codes "controlled interface does not exist: " ++ path))
  | some digest ↦ interface_digests digests paths >>= λ rest. ok ((path, str digest) ∷ rest)
]

-- The fingerprints under a list of identifiers.
unfoldable pub fingerprints : Digests → Dict Requirement → List Text → Dict Value
fingerprints digests requirements [] = []
fingerprints digests requirements (i ∷ is) =
    let rest = fingerprints digests requirements is in
    elim (lookup i requirements) [
      | none ↦ rest
      | some r ↦ (i, str (requirement_fingerprint digests r)) ∷ rest
    ]

abbrev pub review_note : Text
review_note =
    codes
      "Hashes are updated only after requirement and interface changes are reviewed. A mismatch is treated as pending impact review."

unfoldable pub build_traceability_payload : Digests → Dict Requirement → Result Value
unfolding fingerprints interface_digests
build_traceability_payload digests requirements =
    interface_digests digests (keys controlled_interface_paths) >>= λ interfaces. ok (
      obj (
        object (
          (codes "schema", str traceability_schema)
          ∷ (
            codes "requirements",
            obj (object (fingerprints digests requirements (sorted (λ i. i) (keys requirements)))),
          )
          ∷ (codes "controlled_interfaces", obj (object interfaces))
          ∷ (codes "review_note", str review_note)
          ∷ [])))

-- What `main` leaves: the value of the file that was written, and the exit code.
unfoldable pub finish : Result Text → Result Value → Option Value × Result ℕ
finish shown (err (os_error m)) = (none, ok 1)
finish shown (err (value_error m)) = (none, ok 1)
finish shown (err e) = (none, err e)
finish shown (ok payload) = (some payload, shown >>= λ path. ok 0)

-- `main`, from what `parse_requirements_doc` gives; `shown` is the path of the written file below
-- the repository.
unfoldable pub main : Digests → Result Text → Result (Dict Requirement) → Option Value × Result ℕ
unfolding finish
main digests shown parsed = finish shown (parsed >>= build_traceability_payload digests)
