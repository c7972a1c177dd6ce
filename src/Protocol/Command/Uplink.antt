-- ===== src/Protocol/Command/Uplink.antt =====
-- What `build_packet` writes is what the flight software reads.
use astra_sim_fsw.Base.{
  ℕ, ◌^◌, ◌<◌, List, [], ◌++◌, ◌≡◌, refl, arith, none, some, Text, ok, All, All-append,
  if◌then◌else◌, ◌==◌, ==_refl, true,
}
use astra_sim_fsw.Base.Dict.{Dict, lookup}
use astra_sim_fsw.Base.Int.{ℤ, pos}
use astra_sim_fsw.Protocol.Crc
use astra_sim_fsw.Protocol.Crc.Detects.{IsByte, crc16_ccitt-lt}
use astra_sim_fsw.Protocol.Pack.{
  pack_le-IsByte, unpack_le-pack_le, pack_le, unpack_le, pack_field-ok,
}
use astra_sim_fsw.Protocol.Flight.{deserialize_command_packet, is_valid_command_id}
use astra_sim_fsw.Protocol.Command.{
  commands, command_magic, command_version, subscript, pack_payload, build_packet,
}

-- The 24 bytes in front of the checksum.
abbrev pub frame : ℕ → ℕ → ℕ → ℕ → ℕ → ℕ → List ℕ
frame magic version sequence timestamp id argument =
    pack_le 4 magic
    ++ (pack_le 2 version
        ++ (pack_le 4 sequence ++ (pack_le 8 timestamp ++ (pack_le 2 id ++ pack_le 4 argument))))

abbrev pub payload : ℕ → ℕ → ℕ → ℕ → List ℕ
payload = frame command_magic command_version

pub lookup-commands : (command : Text) {id : ℕ} → lookup command commands ≡ some id → id < 5
unfolding lookup
lookup-commands command h = ground arith

pub subscript-known :
    (key : Text) (table : Dict ℕ) {v : ℕ} → lookup key table ≡ some v → subscript key table ≡ ok v
unfolding subscript
subscript-known key table h = rw (h, subscript)

pub frame-IsByte :
    (magic version sequence timestamp id argument : ℕ)
    → All IsByte (frame magic version sequence timestamp id argument)
frame-IsByte magic version sequence timestamp id argument =
    All-append IsByte _ _ (pack_le-IsByte 4 magic) (
      All-append IsByte _ _ (pack_le-IsByte 2 version) (
        All-append IsByte _ _ (pack_le-IsByte 4 sequence) (
          All-append IsByte _ _ (pack_le-IsByte 8 timestamp)
            (All-append IsByte _ _ (pack_le-IsByte 2 id) (pack_le-IsByte 4 argument)))))

-- The fields of a frame fit their C++ types.
pub record FrameFits (magic version sequence timestamp id argument : ℕ) : Type 0 where
  pub magic_fits : magic < 256 ^ 4
  pub version_fits : version < 256 ^ 2
  pub sequence_fits : sequence < 256 ^ 4
  pub timestamp_fits : timestamp < 256 ^ 8
  pub id_fits : id < 256 ^ 2
  pub argument_fits : argument < 256 ^ 4

pub pack_payload-ok :
    (magic version sequence timestamp id argument : ℕ)
    → FrameFits magic version sequence timestamp id argument
    → pack_payload (pos magic) (pos version) (pos sequence) (pos timestamp) (pos id) (pos argument)
      ≡ ok (frame magic version sequence timestamp id argument)
unfolding pack_payload
pack_payload-ok magic version sequence timestamp id argument f =
    rw (pack_field-ok 4 magic f.magic_fits, pack_field-ok 2 version f.version_fits)
      (rw (pack_field-ok 4 sequence f.sequence_fits, pack_field-ok 8 timestamp f.timestamp_fits)
        (rw (pack_field-ok 2 id f.id_fits, pack_field-ok 4 argument f.argument_fits)))

payload-FrameFits :
    (sequence timestamp id argument : ℕ)
    → sequence < 256 ^ 4
    → timestamp < 256 ^ 8
    → id < 5
    → argument < 256 ^ 4
    → FrameFits command_magic command_version sequence timestamp id argument
payload-FrameFits sequence timestamp id argument hs ht hi ha = omega arith

build_packet-payload :
    (now : ℤ) (sequence timestamp argument : ℕ) (command : Text) (id : ℕ)
    → lookup command commands ≡ some id
    → sequence < 256 ^ 4
    → timestamp < 256 ^ 8
    → argument < 256 ^ 4
    → build_packet now (pos sequence) command (pos argument) (some (pos timestamp))
      ≡ ok (
          payload sequence timestamp id argument
          ++ pack_le 2 (Crc.crc16_ccitt (payload sequence timestamp id argument)))
unfolding build_packet
build_packet-payload now sequence timestamp argument command id known hs ht ha =
    let small = lookup-commands command known in
    let fits = payload-FrameFits sequence timestamp id argument hs ht small ha in
    let packed =
      pack_payload-ok command_magic command_version sequence timestamp id argument fits in
    let bytes = frame-IsByte command_magic command_version sequence timestamp id argument in
    let crc = crc16_ccitt-lt (payload sequence timestamp id argument) bytes in
    rw (subscript-known command commands known, packed) (rw (pack_field-ok 2 _ crc) refl)

-- The answer of the flight software to a frame with any checksum behind it.
pub deserialize-frame :
    (magic version sequence timestamp id argument crc : ℕ)
    → FrameFits magic version sequence timestamp id argument
    → crc < 256 ^ 2
    → deserialize_command_packet
        (frame magic version sequence timestamp id argument ++ pack_le 2 crc)
      ≡ (if crc == Crc.crc16_ccitt (frame magic version sequence timestamp id argument)
          then (if magic == command_magic
              then (if version == command_version
                  then (if is_valid_command_id id
                      then some (record {
                        sequence_number = sequence;
                        timestamp_ms = timestamp;
                        command_id = id;
                        argument = argument;
                      })
                      else none)
                  else none)
              else none)
          else none)
unfolding deserialize_command_packet pack_le unpack_le
deserialize-frame magic version sequence timestamp id argument crc f hc = rw (
  unpack_le-pack_le 4 magic [] f.magic_fits,
  unpack_le-pack_le 2 version [] f.version_fits,
  unpack_le-pack_le 4 sequence [] f.sequence_fits,
  unpack_le-pack_le 8 timestamp [] f.timestamp_fits,
  unpack_le-pack_le 2 id [] f.id_fits,
  unpack_le-pack_le 4 argument [] f.argument_fits,
  unpack_le-pack_le 2 crc [] hc,
)

valid_id : (id : ℕ) → id < 5 → is_valid_command_id id ≡ true
unfolding is_valid_command_id
valid_id id h = ground arith

-- For a command of the table, with the sequence number, the timestamp and the argument in range,
-- `build_packet` returns a packet, and the flight software decodes it to just these fields.
pub deserialize_command_packet-build_packet :
    (now : ℤ) (sequence timestamp argument : ℕ) (command : Text) (id : ℕ)
    → lookup command commands ≡ some id
    → sequence < 256 ^ 4
    → timestamp < 256 ^ 8
    → argument < 256 ^ 4
    → (bytes : List ℕ) × (build_packet now
          (pos sequence)
          command
          (pos argument)
          (some (pos timestamp))
        ≡ ok bytes)
      × (deserialize_command_packet bytes
          ≡ some (record {
            sequence_number = sequence;
            timestamp_ms = timestamp;
            command_id = id;
            argument = argument;
          }))
deserialize_command_packet-build_packet now sequence timestamp argument command id known hs ht ha =
    let small = lookup-commands command known in
    let fits = payload-FrameFits sequence timestamp id argument hs ht small ha in
    let bytes = frame-IsByte command_magic command_version sequence timestamp id argument in
    let crc = crc16_ccitt-lt (payload sequence timestamp id argument) bytes in
    let same = ==_refl (Crc.crc16_ccitt (payload sequence timestamp id argument)) in
    (
      payload sequence timestamp id argument
          ++ pack_le 2 (Crc.crc16_ccitt (payload sequence timestamp id argument)),
      build_packet-payload now sequence timestamp argument command id known hs ht ha,
      rw (deserialize-frame command_magic command_version sequence timestamp id argument _ fits crc)
          (rw (same, valid_id id small)),
    )
