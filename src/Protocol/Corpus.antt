-- ===== src/Protocol/Corpus.antt =====
-- tools/generate_command_fuzz_corpus.py: the seeds of the command-packet fuzzer.
pub mod Verdicts
use astra_sim_fsw.Base.{
  ℕ, zero, suc, ◌-◌, Bool, true, false, List, [], ◌∷◌, ◌++◌, Text, codes, Result, ok, err, ◌>>=◌,
  length, take, if◌then◌else◌, hex, bit_xor,
}
use astra_sim_fsw.Base.Int.{pos}
use astra_sim_fsw.Protocol.Crc
use astra_sim_fsw.Protocol.Pack.{pack_field}
use astra_sim_fsw.Protocol.Command.{pack_payload}

abbrev pub command_magic : ℕ
command_magic = 0x434D4453

abbrev pub command_version : ℕ
command_version = 1

unfoldable pub crc16_ccitt : List ℕ → ℕ
crc16_ccitt = Crc.crc16_ccitt

-- The keyword arguments of `command_packet`.
pub record Keywords : Type 0 where
  pub sequence : ℕ
  pub timestamp_ms : ℕ
  pub command_id : ℕ
  pub argument : ℕ
  pub magic : ℕ
  pub version : ℕ
  pub valid_crc : Bool

unfoldable pub command_packet : Keywords → Result (List ℕ)
unfolding crc16_ccitt
command_packet k = do
  without_crc ←
      pack_payload (pos k.magic) (pos k.version) (pos k.sequence) (pos k.timestamp_ms)
        (pos k.command_id) (pos k.argument)
  let crc = crc16_ccitt without_crc
  packed ← pack_field 2 (pos (if k.valid_crc then crc else bit_xor crc 0x0001))
  ok (without_crc ++ packed)

-- A call that leaves the last three keywords at their defaults.
abbrev default_packet : ℕ → ℕ → ℕ → ℕ → Keywords
default_packet sequence timestamp_ms command_id argument = record {
  sequence = sequence;
  timestamp_ms = timestamp_ms;
  command_id = command_id;
  argument = argument;
  magic = command_magic;
  version = command_version;
  valid_crc = true;
}

pub record Seed : Type 0 where
  pub name : Text
  pub bytes : List ℕ
  pub description : Text

abbrev seed : Text → List ℕ → Text → Seed
seed name bytes description = record { name = name; bytes = bytes; description = description }

-- `bytes([value] * n)` and `bytes(range(n))`
repeated : ℕ → ℕ → List ℕ
repeated zero value = []
repeated (suc n) value = value ∷ repeated n value

counting : ℕ → List ℕ
counting zero = []
counting (suc n) = counting n ++ (n ∷ [])

unfoldable pub seed_cases : Result (List Seed)
unfolding command_packet repeated counting
seed_cases = do
  valid_noop ← command_packet (default_packet 0 0 0 0)
  valid_set_mode ← command_packet (default_packet 1 1000 1 1)
  valid_fault ← command_packet (default_packet 2 2000 2 300)
  valid_request ← command_packet (default_packet 3 3000 3 0)
  valid_clear ← command_packet (default_packet 4 4000 4 0)
  bad_crc ← command_packet (record (default_packet 5 5000 0 0) { valid_crc = false })
  bad_magic ← command_packet (record (default_packet 6 6000 0 0) { magic = 0xDEADBEEF })
  bad_version ← command_packet (record (default_packet 7 7000 0 0) { version = 2 })
  bad_command_id ← command_packet (default_packet 8 8000 99 0)
  ok (
      seed (codes "empty") [] (codes "empty input")
      ∷ seed (codes "one_byte") (0 ∷ []) (codes "minimal malformed input")
      ∷ seed (codes "valid_noop") valid_noop (codes "valid NOOP packet")
      ∷ seed (codes "valid_set_mode") valid_set_mode (codes "valid SET_MODE NOMINAL packet")
      ∷ seed (codes "valid_inject_fault") valid_fault
          (codes "valid INJECT_FAULT CPU_OVERLOAD packet")
      ∷ seed (codes "valid_request_telemetry") valid_request
          (codes "valid REQUEST_TELEMETRY packet")
      ∷ seed (codes "valid_clear_fault") valid_clear (codes "valid CLEAR_FAULT packet")
      ∷ seed (codes "bad_crc") bad_crc (codes "fixed-size packet with invalid CRC")
      ∷ seed (codes "bad_magic") bad_magic (codes "valid CRC but invalid magic")
      ∷ seed (codes "bad_version") bad_version (codes "valid CRC but unsupported version")
      ∷ seed (codes "bad_command_id") bad_command_id (codes "valid CRC but unknown command ID")
      ∷ seed (codes "truncated_valid") (take (length valid_set_mode - 1) valid_set_mode)
          (codes "valid packet truncated by one byte")
      ∷ seed (codes "oversized_valid") (valid_set_mode ++ (0 ∷ []))
          (codes "valid packet with one trailing byte")
      ∷ seed (codes "all_ff") (repeated 26 0xFF) (codes "fixed-size high-value input")
      ∷ seed (codes "large_input") (counting 64) (codes "input above protocol length")
      ∷ [])

-- The manifest that `main` writes beside the seeds; `sha256` is the digest of `hashlib`.
pub record SeedEntry : Type 0 where
  pub name : Text
  pub description : Text
  pub size_bytes : ℕ
  pub sha256 : Text

pub record Manifest : Type 0 where
  pub schema : Text
  pub command_magic_text : Text
  pub command_version_number : ℕ
  pub corpus_directory : Text
  pub seeds : List SeedEntry

seed_entries : (List ℕ → Text) → List Seed → List SeedEntry
seed_entries sha256 [] = []
seed_entries sha256 (s ∷ rest) =
    (record {
      name = s.name;
      description = s.description;
      size_bytes = length s.bytes;
      sha256 = sha256 s.bytes;
    })
    ∷ seed_entries sha256 rest

unfoldable pub manifest : (List ℕ → Text) → List Seed → Manifest
unfolding seed_entries
manifest sha256 seeds = record {
  schema = codes "astra-os.command-fuzz-corpus.v1";
  command_magic_text = codes "0x" ++ hex 8 command_magic;
  command_version_number = command_version;
  corpus_directory = codes "corpus";
  seeds = seed_entries sha256 seeds;
}
