-- ===== src/Protocol/Command/Accepted.antt =====
-- Whatever `main` of tools/send_command.py sends, the flight software accepts.
use astra_sim_fsw.Base.{
  ℕ, ◌^◌, ◌<◌, List, [], ◌≡◌, refl, subst, ap, arith, Option, none, some, Text, Result, ok, err,
  >>=-ok,
}
use astra_sim_fsw.Base.Dict.{Dict, lookup}
use astra_sim_fsw.Base.Int.{ℤ, pos, negsuc}
use astra_sim_fsw.Protocol.Pack.{pack_field}
use astra_sim_fsw.Protocol.Flight.{CommandPacket, deserialize_command_packet}
use astra_sim_fsw.Protocol.Command.{
  commands, command_magic, command_version, subscript, pack_payload, build_packet, parse_argument,
  resolve_timestamp, Arguments, Sent, main,
}
use astra_sim_fsw.Protocol.Command.Uplink.{payload, deserialize_command_packet-build_packet}

-- A field that `struct.pack` accepts.
abbrev Fits : ℕ → ℤ → Type 0
Fits w z = (n : ℕ) × (z ≡ pos n) × (n < 256 ^ w)

pack_field-Fits : (w : ℕ) (z : ℤ) {bytes : List ℕ} → pack_field w z ≡ ok bytes → Fits w z
unfolding pack_field
pack_field-Fits w (pos n) h = (n, refl, ground arith)
pack_field-Fits w (negsuc n) h = cc

subscript-lookup :
    (key : Text) (table : Dict ℕ) {v : ℕ} → subscript key table ≡ ok v → lookup key table ≡ some v
unfolding subscript
subscript-lookup key table h = ground arith

pack_payload-Fits :
    (magic version sequence timestamp id argument : ℤ) {bytes : List ℕ}
    → pack_payload magic version sequence timestamp id argument ≡ ok bytes
    → Fits 4 sequence × Fits 8 timestamp × Fits 4 argument
unfolding pack_payload
pack_payload-Fits magic version sequence timestamp id argument h =
    let (a, ha, h1) = >>=-ok (pack_field 4 magic) _ h in
    let (b, hb, h2) = >>=-ok (pack_field 2 version) _ h1 in
    let (c, hc, h3) = >>=-ok (pack_field 4 sequence) _ h2 in
    let (d, hd, h4) = >>=-ok (pack_field 8 timestamp) _ h3 in
    let (e, he, h5) = >>=-ok (pack_field 2 id) _ h4 in
    let (f, hf, h6) = >>=-ok (pack_field 4 argument) _ h5 in
    (pack_field-Fits 4 sequence hc, pack_field-Fits 8 timestamp hd, pack_field-Fits 4 argument hf)

build_packet-Fits :
    (now sequence argument : ℤ) (command : Text) (timestamp : Option ℤ) {bytes : List ℕ}
    → build_packet now sequence command argument timestamp ≡ ok bytes
    → ((id : ℕ) × (lookup command commands ≡ some id))
      × Fits 4 sequence
      × Fits 8 (resolve_timestamp now timestamp)
      × Fits 4 argument
unfolding build_packet
build_packet-Fits now sequence argument command timestamp h =
    let (id, known, h1) = >>=-ok (subscript command commands) _ h in
    let (payload, packed, h2) =
      >>=-ok
        (pack_payload (pos command_magic) (pos command_version) sequence
          (resolve_timestamp now timestamp) (pos id) argument)
        _ h1 in
    let (fits_sequence, fits_timestamp, fits_argument) = pack_payload-Fits _ _ _ _ _ _ packed in
    ((id, subscript-lookup command commands known), fits_sequence, fits_timestamp, fits_argument)

build_packet-resolve :
    (now sequence argument : ℤ) (command : Text) (timestamp : Option ℤ)
    → build_packet now sequence command argument timestamp
      ≡ build_packet now sequence command argument (some (resolve_timestamp now timestamp))
unfolding build_packet
build_packet-resolve now sequence argument command none = refl
build_packet-resolve now sequence argument command (some t) = refl

-- The packet that the flight software makes of a datagram for these arguments.
pub record Reads (now : ℤ) (args : Arguments) (p : CommandPacket) : Type 0 where
  pub sequence : args.sequence ≡ pos p.sequence_number
  pub timestamp : resolve_timestamp now args.timestamp_ms ≡ pos p.timestamp_ms
  pub command : lookup args.command commands ≡ some p.command_id
  pub argument : parse_argument args.command args.argument ≡ ok p.argument

pos-injective : (a b : ℕ) → pos a ≡ pos b → a ≡ b
pos-injective a b e = cc

packet_of : Result Sent → List ℕ
packet_of (ok sent) = sent.packet
packet_of (err e) = []

build_packet-decodes :
    (now sequence : ℤ) (command : Text) (value : ℕ) (timestamp : Option ℤ) {packet : List ℕ}
    → build_packet now sequence command (pos value) timestamp ≡ ok packet
    → (p : CommandPacket) × (deserialize_command_packet packet ≡ some p)
      × (sequence ≡ pos p.sequence_number)
      × (resolve_timestamp now timestamp ≡ pos p.timestamp_ms)
      × (lookup command commands ≡ some p.command_id)
      × (value ≡ p.argument)
build_packet-decodes now sequence command value timestamp {packet} built =
    let ((id, known), (s, es, hs), (t, et, ht), (a, ea, ha)) =
      build_packet-Fits now sequence (pos value) command timestamp built in
    let small : value < 256 ^ 4 = rw (pos-injective value a ea) ha in
    let (packet', again, decoded) =
      deserialize_command_packet-build_packet now s t value command id known hs ht small in
    let resolved = build_packet-resolve now sequence (pos value) command timestamp in
    let joined : ok packet ≡ ok packet' = cc (built, resolved, es, et, again) in
    (
      record { sequence_number = s; timestamp_ms = t; command_id = id; argument = value },
      cc (joined, decoded),
      es,
      et,
      known,
      refl,
    )

-- If `main` sends a datagram, the flight software decodes it, to the sequence number, the
-- timestamp (the clock's reading, if none was given), the number of the command and the number
-- that `parse_argument` made of the argument.
pub main-Reads :
    (now : ℤ) (args : Arguments) (sent : Sent)
    → main now args ≡ ok sent
    → (p : CommandPacket) × (deserialize_command_packet sent.packet ≡ some p) × Reads now args p
unfolding main packet_of
main-Reads now args sent h =
    let (value, parsed, h1) = >>=-ok (parse_argument args.command args.argument) _ h in
    let (packet, built, h2) =
      >>=-ok (build_packet now args.sequence args.command (pos value) args.timestamp_ms) _ h1 in
    let (p, decoded, es, et, known, ev) =
      build_packet-decodes now args.sequence args.command value args.timestamp_ms built in
    let sent_packet : packet ≡ sent.packet = ap packet_of h2 in
    (
      p,
      subst (λ bytes. deserialize_command_packet bytes ≡ some p) sent_packet decoded,
      record { sequence = es; timestamp = et; command = known; argument = rw ev at parsed },
    )
