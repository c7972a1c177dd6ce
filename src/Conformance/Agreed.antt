-- ===== src/Conformance/Agreed.antt =====
-- tools/check_protocol_conformance.py: what an exit code of 0 says of the three sides.
use astra_sim_fsw.Base.{
  ℕ, true, List, [], ◌∷◌, ◌≡◌, refl, sym, ap, subst, ◌∙◌, inl, inr, Text, codes, All, Result, ok,
  err, value_error, key_error, type_error, struct_error, attribute_error, assertion_error,
  overflow_error, keyboard_interrupt, os_error, runtime_error, ◌>>=◌, >>=-ok, ok-injective,
  Bool-cases,
}
use astra_sim_fsw.Base.Dict.{Dict}
use astra_sim_fsw.Base.Json.{Value}
use astra_sim_fsw.Conformance.{
  Headers, Actual, table, number, equals, parse_cpp_enum, parse_cpp_constant, invert_integer_map,
}
use astra_sim_fsw.Conformance.Tables.{
  SameTable, equals-SameTable, and-true, equals-SameTable, equals_int_unique,
}
use astra_sim_fsw.Conformance.Checks.{
  Check, table_of, number_of, mode_header, telemetry_header, command_header, processor_header,
  enum_checks, constant_checks, sender_checks, receiver_checks, checks, CheckResult, result_of,
  compare_one, compare_all, all_passed, finish, main,
}
use astra_sim_fsw.Protocol.Command
use astra_sim_fsw.Protocol.Telemetry

-- Both sides of a comparison can be read, and they are equal.
abbrev pub Equal : Result Value → Result Actual → Type 0
Equal expected actual =
    (v : Value) × (a : Actual) × (expected ≡ ok v) × (actual ≡ ok a) × (equals v a ≡ true)

abbrev pub Agrees : Check → Type 0
Agrees c = Equal c.expected c.actual

compare_all-Agrees :
    (cs : List Check) (results : List CheckResult)
    → compare_all cs ≡ ok results
    → all_passed results ≡ true
    → All Agrees cs
unfolding compare_all compare_one all_passed
compare_all-Agrees [] results h passed = tt
compare_all-Agrees (c ∷ cs) results h passed =
    let (result, one, tail) =
      >>=-ok (compare_one c) (λ result. compare_all cs >>= λ results. ok (result ∷ results)) h in
    let (others, rest, put) = >>=-ok (compare_all cs) (λ results. ok (result ∷ results)) tail in
    let (v, is_v, tail') =
      >>=-ok c.expected (λ expected. c.actual >>= λ actual. ok (result_of c expected actual)) one in
    let (a, is_a, made) = >>=-ok c.actual (λ actual. ok (result_of c v actual)) tail' in
    let both = subst (λ rs. all_passed rs ≡ true) (sym (ok-injective put)) passed in
    let (good, goods) = and-true result.passed (all_passed others) both in
    let same = subst (λ (r : CheckResult). r.passed ≡ true) (sym (ok-injective made)) good in
    ((v, a, is_v, is_a, same), compare_all-Agrees cs others rest goods)

finish-zero :
    (manifest_shown report_shown : Result Text) (compared : Result (List CheckResult))
    → (finish manifest_shown report_shown compared).1 ≡ ok 0
    → (results : List CheckResult) × (compared ≡ ok results) × (all_passed results ≡ true)
unfolding finish
finish-zero (ok m) (ok s) (ok results) h = elim (Bool-cases (all_passed results)) [
  | inl good ↦ (results, refl, good)
  | inr bad ↦ absurd (cc (rw bad at h))
]
finish-zero (ok m) (err e) (ok results) h = absurd (cc h)
finish-zero (err e) report_shown (ok results) h = absurd (cc h)
finish-zero m s (err (value_error t)) h = absurd (cc h)
finish-zero m s (err (key_error t)) h = absurd (cc h)
finish-zero m s (err (runtime_error t)) h = absurd (cc h)
finish-zero m s (err (os_error t)) h = absurd (cc h)
finish-zero m s (err struct_error) h = absurd (cc h)
finish-zero m s (err attribute_error) h = absurd (cc h)
finish-zero m s (err type_error) h = absurd (cc h)
finish-zero m s (err assertion_error) h = absurd (cc h)
finish-zero m s (err overflow_error) h = absurd (cc h)
finish-zero m s (err keyboard_interrupt) h = absurd (cc h)

moved : {v w : Value} {a b : Actual} → v ≡ w → a ≡ b → equals v a ≡ true → equals w b ≡ true
moved v-w a-b h = cc (v-w, a-b, h)

-- An enum of a header and two tables that all agree with one value of the manifest.
agreed_tables :
    {e : Result Value} {r : Result (Dict ℕ)} {t u : Dict ℕ}
    → Equal e (table_of r)
    → Equal e (ok (table t))
    → Equal e (ok (table u))
    → (m : Dict ℕ) × (r ≡ ok m) × SameTable m t × SameTable m u
agreed_tables {r = r} {t = t} {u = u} (v, a, is_v, is_a, h) (v', a', is_v', is_a', h')
      (v'', a'', is_v'', is_a'', h'') =
    let (m, read, is_table) = >>=-ok r (λ t. ok (table t)) is_a in
    let h_m = moved refl (sym (ok-injective is_table)) h in
    let h_t = moved (ok-injective (sym is_v' ∙ is_v)) (sym (ok-injective is_a')) h' in
    let h_u = moved (ok-injective (sym is_v'' ∙ is_v)) (sym (ok-injective is_a'')) h'' in
    (m, read, equals-SameTable v m t h_m h_t, equals-SameTable v m u h_m h_u)

-- A constant of a header and a number that agree with one value of the manifest.
agreed_number :
    {e : Result Value} {r : Result ℕ} {n : ℕ}
    → Equal e (number_of r)
    → Equal e (ok (number n))
    → r ≡ ok n
unfolding equals
agreed_number {r = r} {n = n} (v, a, is_v, is_a, h) (v', a', is_v', is_a', h') =
    let (m, read, is_number) = >>=-ok r (λ m. ok (number m)) is_a in
    let h_m = moved refl (sym (ok-injective is_number)) h in
    let h_n = moved (ok-injective (sym is_v' ∙ is_v)) (sym (ok-injective is_a')) h' in
    read ∙ ap ok (equals_int_unique m n v h_m h_n)

main-Agrees :
    (headers : Headers) (manifest_shown report_shown : Result Text) (read : Result Value)
    → (main headers manifest_shown report_shown read).1 ≡ ok 0
    → (manifest : Value) × (read ≡ ok manifest) × All Agrees (checks headers manifest)
unfolding main
main-Agrees headers manifest_shown report_shown read h =
    let (results, compared, passed) =
      finish-zero manifest_shown report_shown
        (read >>= λ manifest. compare_all (checks headers manifest)) h in
    let (manifest, is_read, all_compared) =
      >>=-ok read (λ manifest. compare_all (checks headers manifest)) compared in
    (manifest, is_read, compare_all-Agrees (checks headers manifest) results all_compared passed)

-- If `main` returns 0, the enums for modes, faults and commands can be read from the C++ headers,
-- and each has the same numbers behind the same names as the table of send_command.py and as the
-- inverted table of telemetry_receiver.py, and the enum of statuses as the latter; and the magic
-- numbers, versions, packet type and telemetry size of the headers are those of the two tools.
pub main-agreed :
    (headers : Headers) (manifest_shown report_shown : Result Text) (read : Result Value)
    → (main headers manifest_shown report_shown read).1 ≡ ok 0
    → (((m : Dict ℕ) × (parse_cpp_enum headers mode_header (codes "Mode") ≡ ok m)
          × SameTable m Command.modes
          × SameTable m (invert_integer_map Telemetry.modes))
        × ((m : Dict ℕ) × (parse_cpp_enum headers mode_header (codes "FaultCode") ≡ ok m)
            × SameTable m Command.faults
            × SameTable m (invert_integer_map Telemetry.faults))
        × ((m : Dict ℕ) × (parse_cpp_enum headers command_header (codes "CommandId") ≡ ok m)
            × SameTable m Command.commands
            × SameTable m (invert_integer_map Telemetry.commands))
        × ((m : Dict ℕ) × (parse_cpp_enum headers processor_header (codes "CommandStatus") ≡ ok m)
            × SameTable m (invert_integer_map Telemetry.command_statuses))
        × ((parse_cpp_constant headers command_header (codes "COMMAND_MAGIC")
              ≡ ok Command.command_magic)
            × (parse_cpp_constant headers command_header (codes "COMMAND_VERSION")
                ≡ ok Command.command_version)
            × (parse_cpp_constant headers telemetry_header (codes "TELEMETRY_MAGIC")
                ≡ ok Telemetry.telemetry_magic)
            × (parse_cpp_constant headers telemetry_header (codes "TELEMETRY_VERSION")
                ≡ ok Telemetry.telemetry_version)
            × (parse_cpp_constant headers telemetry_header (codes "TELEMETRY_PACKET_TYPE_HEALTH")
                ≡ ok Telemetry.telemetry_packet_type_health)
            × (parse_cpp_constant headers telemetry_header (codes "TELEMETRY_PACKET_SIZE_BYTES")
                ≡ ok Telemetry.telemetry_packet_size_bytes)))
unfolding checks enum_checks constant_checks sender_checks receiver_checks
main-agreed headers manifest_shown report_shown read h =
    let (manifest, is_read, agree) = main-Agrees headers manifest_shown report_shown read h in
    let (modes, (faults, (commands, (statuses, rest)))) = agree in
    let (command_magic, (command_version, (command_size, telemetry))) = rest in
    let (telemetry_magic, (telemetry_version, (telemetry_type, (telemetry_size, sender)))) =
      telemetry in
    let (sends, (sent_modes, (sent_faults, (sent_magic, (sent_version, receiver))))) = sender in
    let (receives, (received_modes, (received_faults, (received_statuses, numbers)))) = receiver in
    let (received_magic, (received_version, (received_type, (received_size, _)))) = numbers in
    (
      agreed_tables modes sent_modes received_modes,
      agreed_tables faults sent_faults received_faults,
      agreed_tables commands sends receives,
      (let (m, parsed, same, _) = agreed_tables statuses received_statuses received_statuses in
          (m, parsed, same)),
      (
        agreed_number command_magic sent_magic,
        agreed_number command_version sent_version,
        agreed_number telemetry_magic received_magic,
        agreed_number telemetry_version received_version,
        agreed_number telemetry_type received_type,
        agreed_number telemetry_size received_size,
      ),
    )
