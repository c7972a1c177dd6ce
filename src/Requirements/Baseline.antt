-- ===== src/Requirements/Baseline.antt =====
-- The comparison with the reviewed baseline, of tools/check_requirements.py and
-- tools/traceability_baseline.py.
use astra_sim_fsw.Base.{
  Bool, false, List, [], ◌∷◌, ◌++◌, map, Option, none, some, Text, codes, text_eq, if◌then◌else◌,
  Result, ok, err, Exception, value_error, os_error, attribute_error,
}
use astra_sim_fsw.Base.Dict.{Dict, lookup}
use astra_sim_fsw.Base.Json.{Value, str, obj, end, field, get, entries, str_of, equals_text}
use astra_sim_fsw.Requirements.{Requirement}
use astra_sim_fsw.Requirements.Problems.{keys_without, common_keys, collect}

abbrev pub traceability_schema : Text
traceability_schema = codes "astra-os.traceability-baseline.v1"

-- The paths under review, each as a key.
abbrev pub controlled_interface_paths : Dict Text
controlled_interface_paths =
    (codes "config/protocol_manifest.json", [])
    ∷ (codes "fsw/include/astra/command_packet.hpp", [])
    ∷ (codes "fsw/include/astra/command_processor.hpp", [])
    ∷ (codes "fsw/include/astra/mode_manager.hpp", [])
    ∷ (codes "fsw/include/astra/telemetry_packet.hpp", [])
    ∷ (codes "tools/send_command.py", [])
    ∷ (codes "tools/telemetry_receiver.py", [])
    ∷ []

-- What the comparison needs from outside: the SHA-256 of a value's JSON text, the SHA-256 of a
-- file where it is one, and `str` of values that are no texts.
pub record Digests : Type 0 where
  pub of_value : Value → Text
  pub of_file : Text → Option Text
  pub repr : Value → Text

unfoldable pub requirement_fingerprint : Digests → Requirement → Text
requirement_fingerprint digests r = digests.of_value (
    obj (
      field (codes "id") (str r.req_id) (
        field (codes "text") (str r.text)
          (field (codes "method") (str r.method) (field (codes "status") (str r.status) end)))))

-- The two objects of the baseline.
pub record Payload : Type 0 where
  pub requirements : Dict Value
  pub controlled_interfaces : Dict Value

unfoldable pub payload_objects : Text → Option Value → Option Value → Result Payload
payload_objects path (some (obj requirements)) (some (obj interfaces)) =
    ok (record { requirements = entries requirements; controlled_interfaces = entries interfaces })
payload_objects path (some (obj requirements)) _ =
    err (
      value_error (codes "traceability baseline controlled_interfaces must be an object: " ++ path))
payload_objects path _ _ =
    err (value_error (codes "traceability baseline requirements must be an object: " ++ path))

unfoldable pub has_schema : Option Value → Bool
has_schema none = false
has_schema (some v) = equals_text traceability_schema v

unreadable : Text → Text → Exception
unreadable path m =
    value_error (codes "unable to read traceability baseline " ++ (path ++ (codes ": " ++ m)))

-- `read_traceability_payload`, from what reading and parsing the file gives.
unfoldable pub read_traceability_payload : Text → Result Value → Result Payload
unfolding has_schema unreadable
read_traceability_payload path (err (os_error m)) = err (unreadable path m)
read_traceability_payload path (err (value_error m)) = err (unreadable path m)
read_traceability_payload path (err e) = err e
read_traceability_payload path (ok (obj payload)) =
    if has_schema (get (codes "schema") payload)
    then payload_objects path (get (codes "requirements") payload)
        (get (codes "controlled_interfaces") payload)
    else err (value_error (codes "unexpected traceability baseline schema in " ++ path))
read_traceability_payload path (ok _) = err attribute_error

unfoldable pub changed_requirement : Digests → Text → Option Requirement → Option Value → List Text
changed_requirement digests req_id (some r) (some expected) =
    if text_eq (requirement_fingerprint digests r) (str_of digests.repr expected)
    then []
    else (codes "Requirement changed since review baseline: " ++ req_id) ∷ []
changed_requirement digests req_id _ _ = []

unfoldable pub changed_interface : Digests → Text → Option Text → Option Value → List Text
changed_interface digests path (some actual) (some expected) =
    if text_eq actual (str_of digests.repr expected)
    then []
    else (codes "Controlled interface changed since review baseline: " ++ path) ∷ []
changed_interface digests path (some actual) none = []
changed_interface digests path none expected =
    (codes "Controlled interface is missing: " ++ path) ∷ []

-- `reviewed_baseline_problems`, where the baseline exists.
unfoldable pub reviewed_baseline_problems : Digests → Dict Requirement → Payload → List Text
reviewed_baseline_problems digests requirements payload =
    map (λ i. codes "Requirement added since review baseline: " ++ i)
      (keys_without requirements payload.requirements)
    ++ (map (λ i. codes "Requirement removed since review baseline: " ++ i)
          (keys_without payload.requirements requirements)
        ++ (collect
              (λ i.
                changed_requirement digests i (lookup i requirements)
                  (lookup i payload.requirements))
              (common_keys requirements payload.requirements)
            ++ (map (λ p. codes "Controlled interface missing from review baseline: " ++ p)
                  (keys_without controlled_interface_paths payload.controlled_interfaces)
                ++ (map (λ p. codes "Unexpected controlled interface in review baseline: " ++ p)
                      (keys_without payload.controlled_interfaces controlled_interface_paths)
                    ++ collect
                        (λ p.
                          changed_interface digests p (digests.of_file p)
                            (lookup p payload.controlled_interfaces))
                        (common_keys controlled_interface_paths payload.controlled_interfaces)))))
