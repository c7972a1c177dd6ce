-- ===== src/Protocol/Corpus/Verdicts.antt =====
-- What the flight software answers to a seed that `command_packet` builds.
use astra_sim_fsw.Base.{
  ℕ, ◌^◌, ◌<◌, ◌&&◌, List, ◌++◌, ◌≡◌, ◌≢◌, refl, sym, ◌∙◌, arith, ◌==◌, none, some, ok,
  if◌then◌else◌, bit_xor,
}
use astra_sim_fsw.Base.Bits.{bit_xor_comm, bit_xor-injective, bit_xor-zero_left, bit_xor-lt}
use astra_sim_fsw.Protocol.Crc
use astra_sim_fsw.Protocol.Crc.Detects.{crc16_ccitt-lt}
use astra_sim_fsw.Protocol.Pack.{pack_le, pack_field-ok}
use astra_sim_fsw.Protocol.Flight.{CommandPacket, deserialize_command_packet, is_valid_command_id}
use astra_sim_fsw.Protocol.Command.Uplink.{
  frame, frame-IsByte, FrameFits, pack_payload-ok, deserialize-frame,
}
use astra_sim_fsw.Protocol.Corpus.{Keywords, command_packet, command_magic, command_version}

-- Flipping the lowest bit changes a number.
flip-ne : (crc : ℕ) → bit_xor crc 1 ≢ crc
flip-ne crc e =
    let swapped : bit_xor 1 crc ≡ bit_xor 0 crc =
      bit_xor_comm 1 crc ∙ e ∙ sym (bit_xor-zero_left crc) in
    absurd (omega (arith, bit_xor-injective 1 0 crc swapped))

abbrev pub KeywordsFit : Keywords → Type 0
KeywordsFit k = FrameFits k.magic k.version k.sequence k.timestamp_ms k.command_id k.argument

abbrev body : Keywords → List ℕ
body k = frame k.magic k.version k.sequence k.timestamp_ms k.command_id k.argument

abbrev sent_crc : Keywords → ℕ
sent_crc k = if k.valid_crc then Crc.crc16_ccitt (body k) else bit_xor (Crc.crc16_ccitt (body k)) 1

-- The packet that the fields describe.
abbrev pub described : Keywords → CommandPacket
described k = record {
  sequence_number = k.sequence;
  timestamp_ms = k.timestamp_ms;
  command_id = k.command_id;
  argument = k.argument;
}

sent_crc-lt : (k : Keywords) → sent_crc k < 256 ^ 2
sent_crc-lt k =
    let crc = crc16_ccitt-lt (body k) (frame-IsByte _ _ _ _ _ _) in
    ground (arith, crc, bit_xor-lt 16 (Crc.crc16_ccitt (body k)) 1 crc (omega arith))

sent_crc_test : (k : Keywords) → (sent_crc k == Crc.crc16_ccitt (body k)) ≡ k.valid_crc
sent_crc_test k = ground (arith, flip-ne (Crc.crc16_ccitt (body k)))

command_packet-frame :
    (k : Keywords) → KeywordsFit k → command_packet k ≡ ok (body k ++ pack_le 2 (sent_crc k))
unfolding command_packet
command_packet-frame k fits =
    rw (pack_payload-ok k.magic k.version k.sequence k.timestamp_ms k.command_id k.argument fits)
      (rw (pack_field-ok 2 (sent_crc k) (sent_crc-lt k)) refl)

-- For fields that fit the format `command_packet` returns a packet. The flight software accepts it
-- exactly if the checksum was asked to be valid, the magic and the version are the protocol's, and
-- the command is known; then it decodes the fields.
pub command_packet_verdict :
    (k : Keywords)
    → KeywordsFit k
    → (bytes : List ℕ) × (command_packet k ≡ ok bytes)
      × (deserialize_command_packet bytes ≡ (
          if k.valid_crc
            && (k.magic == command_magic)
            && (k.version == command_version)
            && is_valid_command_id k.command_id
          then some (described k)
          else none))
command_packet_verdict k fits = (
  body k ++ pack_le 2 (sent_crc k),
  command_packet-frame k fits,
  deserialize-frame k.magic k.version k.sequence k.timestamp_ms k.command_id k.argument (sent_crc k)
        fits (sent_crc-lt k)
      ∙ ground (arith, sent_crc_test k),
)
