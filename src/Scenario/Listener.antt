-- ===== src/Scenario/Listener.antt =====
-- The listener survives every datagram.
use astra_sim_fsw.Base.{
  ℕ, ◌-◌, Bool, true, false, List, [], ◌∷◌, ◌++◌, ◌≡◌, ◌≢◌, ◌⊎◌, inl, inr, refl, sym, ap, ◌∙◌,
  append_assoc, append-nil, Text, Result, ok, err, Exception, value_error, length, take, ◌==◌,
  if◌then◌else◌,
}
use astra_sim_fsw.Protocol.Telemetry.{
  Packet, decode_packet, telemetry_packet_size_bytes, telemetry_magic, telemetry_version,
  telemetry_packet_type_health, field, fields, wrong_size, bad_crc, bad_magic, bad_version,
  bad_type, crc16_ccitt,
}
use astra_sim_fsw.Scenario.{Entry, decoded, decode_error, entry_of, telemetry_listener}

-- What a datagram leaves in the list of packets.
pub data Outcome : List ℕ → Entry → Type 0 where
  accepted : {bytes : List ℕ} (p : Packet) → decode_packet bytes ≡ ok p → Outcome bytes (decoded p)
  refused :
      {bytes : List ℕ} (m : Text)
      → decode_packet bytes ≡ err (value_error m)
      → Outcome bytes (decode_error m)

IsValueError : Exception → Type 0
IsValueError e = (m : Text) × (e ≡ value_error m)

ok≢err : {A : Type 0} {a : A} {e : Exception} → ok a ≢ err e
ok≢err h = cc h

-- A guard's exception, or one from behind it.
guarded-err :
    {A : Type 0} (b : Bool) (r : Result A) (x : Exception) {e : Exception}
    → (if b then r else err x) ≡ err e
    → (e ≡ x) ⊎ (r ≡ err e)
guarded-err true r x h = inr h
guarded-err false r x h = inl (cc h)

decode_packet-IsValueError :
    (bytes : List ℕ) {e : Exception} → decode_packet bytes ≡ err e → IsValueError e
unfolding decode_packet IsValueError
decode_packet-IsValueError bytes h =
    elim (guarded-err (length bytes == telemetry_packet_size_bytes) _ (wrong_size (length bytes))
      h) [
        | inl size ↦ (_, size)
        | inr h1 ↦
            elim (guarded-err (field 2 41 bytes == crc16_ccitt (take (length bytes - 2) bytes)) _
              (bad_crc (crc16_ccitt (take (length bytes - 2) bytes)) (field 2 41 bytes)) h1) [
                | inl crc ↦ (_, crc)
                | inr h2 ↦
                    elim (guarded-err (field 4 0 bytes == telemetry_magic) _
                      (bad_magic (field 4 0 bytes)) h2) [
                        | inl magic ↦ (_, magic)
                        | inr h3 ↦
                            elim (guarded-err (field 2 4 bytes == telemetry_version) _
                              (bad_version (field 2 4 bytes)) h3) [
                                | inl version ↦ (_, version)
                                | inr h4 ↦
                                    elim (guarded-err
                                      (field 2 6 bytes == telemetry_packet_type_health)
                                      (ok (fields bytes)) (bad_type (field 2 6 bytes)) h4) [
                                        | inl packet_type ↦ (_, packet_type)
                                        | inr h5 ↦ absurd (ok≢err h5)
                                      ]
                              ]
                      ]
              ]
      ]

heard :
    (bytes : List ℕ) (r : Result Packet)
    → decode_packet bytes ≡ r
    → (entry : Entry) × (entry_of bytes ≡ ok entry) × Outcome bytes entry
unfolding entry_of IsValueError
heard bytes (ok p) h = (decoded p, rw (entry_of, h) refl, accepted p h)
heard bytes (err e) h =
    let (m, named) = decode_packet-IsValueError bytes h in
    let raised : decode_packet bytes ≡ err (value_error m) = h ∙ ap err named in
    (decode_error m, rw (entry_of, raised) refl, refused m raised)

-- The entries that a list of datagrams leaves, one for each.
pub data Heard : List (List ℕ) → List Entry → Type 0 where
  silence : Heard [] []
  then_heard :
      {bytes : List ℕ} {entry : Entry} {received : List (List ℕ)} {entries : List Entry}
      → Outcome bytes entry
      → Heard received entries
      → Heard (bytes ∷ received) (entry ∷ entries)

-- Whatever bytes arrive, the listener goes on to the last datagram and leaves one entry for each:
-- the packet where the decoder accepts it, the decoder's message where it refuses.
pub telemetry_listener-Heard :
    (packets : List Entry) (received : List (List ℕ))
    → (entries : List Entry) × (telemetry_listener packets received ≡ packets ++ entries)
      × Heard received entries
unfolding telemetry_listener
telemetry_listener-Heard packets [] = ([], sym (append-nil packets), silence)
telemetry_listener-Heard packets (bytes ∷ received) =
    let (entry, turn, outcome) = heard bytes (decode_packet bytes) refl in
    let (entries, later, all) = telemetry_listener-Heard (packets ++ (entry ∷ [])) received in
    (
      entry ∷ entries,
      rw (telemetry_listener, turn) (later ∙ append_assoc packets (entry ∷ []) entries),
      then_heard outcome all,
    )
