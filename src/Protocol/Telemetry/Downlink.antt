-- ===== src/Protocol/Telemetry/Downlink.antt =====
-- What the flight software serializes is what `decode_packet` returns, and damage is noticed.
use astra_sim_fsw.Base.{
  ℕ, ◌-◌, ◌^◌, ◌<◌, List, [], ◌∷◌, ◌++◌, ◌≡◌, ◌≢◌, refl, ap, ◌∙◌, arith, ◌↔◌, length-append, ok,
  err, guarded-ok, ==_iff, length, take, All,
}
use astra_sim_fsw.Protocol.Crc
use astra_sim_fsw.Protocol.Crc.Detects.{IsByte, crc16_ccitt-lt}
use astra_sim_fsw.Protocol.Pack.{pack_le, unpack_le, unpack_le-pack_le}
use astra_sim_fsw.Protocol.Frame.{Checks, Checks-changed}
use astra_sim_fsw.Protocol.Flight.{TelemetryPacket, telemetry_body, serialize_telemetry_packet}
use astra_sim_fsw.Protocol.Telemetry.{
  Packet, telemetry_packet_size_bytes, modes, faults, command_statuses, name_of, command_name,
  bad_crc, field, fields, decode_packet, telemetry_magic, telemetry_version,
  telemetry_packet_type_health,
}

-- The header and the checksum that `decode_packet` asks for.
pub record IsValid (bytes : List ℕ) : Type 0 where
  pub size : length bytes ≡ telemetry_packet_size_bytes
  pub checks : Checks 41 bytes
  pub magic : field 4 0 bytes ≡ telemetry_magic
  pub version : field 2 4 bytes ≡ telemetry_version
  pub packet_type : field 2 6 bytes ≡ telemetry_packet_type_health

decode_packet-IsValid : (bytes : List ℕ) {p : Packet} → decode_packet bytes ≡ ok p → IsValid bytes
unfolding decode_packet field
decode_packet-IsValid bytes h =
    let (size, h1) = guarded-ok _ _ _ h in
    let (checks, h2) = guarded-ok _ _ _ h1 in
    let (magic, h3) = guarded-ok _ _ _ h2 in
    let (version, h4) = guarded-ok _ _ _ h3 in
    let (packet_type, h5) = guarded-ok _ _ _ h4 in
    let n : length bytes ≡ 43 = (==_iff _ _).0 size in
    record {
      size = n;
      checks = (==_iff _ _).0 checks ∙ ap (λ (m : ℕ). Crc.crc16_ccitt (take (m - 2) bytes)) n;
      magic = (==_iff _ _).0 magic;
      version = (==_iff _ _).0 version;
      packet_type = (==_iff _ _).0 packet_type;
    }

IsValid-decode_packet : (bytes : List ℕ) → IsValid bytes → decode_packet bytes ≡ ok (fields bytes)
unfolding decode_packet field
IsValid-decode_packet bytes v = ground arith

-- `decode_packet` returns a packet exactly on the 43-byte inputs whose last two bytes are the
-- checksum of the others and whose magic, version and packet type are those of health telemetry.
pub decode_packet_iff :
    (bytes : List ℕ) → ((p : Packet) × (decode_packet bytes ≡ ok p)) ↔ IsValid bytes
decode_packet_iff bytes =
    (λ h. decode_packet-IsValid bytes h.1, λ v. (fields bytes, IsValid-decode_packet bytes v))

decode_packet-broken :
    (bytes : List ℕ)
    → length bytes ≡ 43
    → ¬ Checks 41 bytes
    → decode_packet bytes ≡ err (bad_crc (Crc.crc16_ccitt (take 41 bytes)) (field 2 41 bytes))
unfolding decode_packet field
decode_packet-broken bytes size broken = ground arith

-- A packet that decodes, with exactly one of its bytes changed, is refused for its checksum.
pub decode_packet-changed :
    (front back : List ℕ) (x y : ℕ) {p : Packet}
    → decode_packet (front ++ (x ∷ back)) ≡ ok p
    → All IsByte front
    → All IsByte back
    → IsByte x
    → IsByte y
    → x ≢ y
    → (expected : ℕ) × (actual : ℕ) × (decode_packet (front ++ (y ∷ back))
        ≡ err (bad_crc expected actual))
decode_packet-changed front back x y h hf hb hx hy ne =
    let v = decode_packet-IsValid (front ++ (x ∷ back)) h in
    let broken = Checks-changed 41 front back x y v.size hf hb hx hy ne v.checks in
    let same_size : length (front ++ (y ∷ back)) ≡ 43 =
      omega (arith, length-append front (x ∷ back), length-append front (y ∷ back), v.size) in
    (_, _, decode_packet-broken (front ++ (y ∷ back)) same_size broken)

-- The fields of a telemetry packet fit their C++ types.
pub record InRange (p : TelemetryPacket) : Type 0 where
  pub sequence_number : p.sequence_number < 256 ^ 4
  pub timestamp_ms : p.timestamp_ms < 256 ^ 8
  pub mode : p.mode < 256 ^ 1
  pub last_fault : p.last_fault < 256 ^ 2
  pub cpu_load_percent : p.cpu_load_percent < 256 ^ 4
  pub memory_load_percent : p.memory_load_percent < 256 ^ 4
  pub heartbeat_count : p.heartbeat_count < 256 ^ 4
  pub last_command_sequence_number : p.last_command_sequence_number < 256 ^ 4
  pub last_command_id : p.last_command_id < 256 ^ 1
  pub last_command_status : p.last_command_status < 256 ^ 1

-- The packet as the ground displays it.
abbrev pub displayed : TelemetryPacket → Packet
displayed p = record {
  sequence_number = p.sequence_number;
  timestamp_ms = p.timestamp_ms;
  mode = name_of p.mode modes;
  last_fault = name_of p.last_fault faults;
  cpu_load_percent = p.cpu_load_percent;
  memory_load_percent = p.memory_load_percent;
  heartbeat_count = p.heartbeat_count;
  last_command_sequence_number = p.last_command_sequence_number;
  last_command_id = command_name p.last_command_id;
  last_command_status = name_of p.last_command_status command_statuses;
}

fields-serialize :
    (p : TelemetryPacket) → InRange p → fields (serialize_telemetry_packet p) ≡ displayed p
unfolding fields field serialize_telemetry_packet pack_le unpack_le
fields-serialize p r = rw (
  unpack_le-pack_le 4 p.sequence_number [] r.sequence_number,
  unpack_le-pack_le 8 p.timestamp_ms [] r.timestamp_ms,
  unpack_le-pack_le 1 p.mode [] r.mode,
  unpack_le-pack_le 2 p.last_fault [] r.last_fault,
  unpack_le-pack_le 4 p.cpu_load_percent [] r.cpu_load_percent,
  unpack_le-pack_le 4 p.memory_load_percent [] r.memory_load_percent,
  unpack_le-pack_le 4 p.heartbeat_count [] r.heartbeat_count,
  unpack_le-pack_le 4 p.last_command_sequence_number [] r.last_command_sequence_number,
  unpack_le-pack_le 1 p.last_command_id [] r.last_command_id,
  unpack_le-pack_le 1 p.last_command_status [] r.last_command_status,
)

telemetry_body-IsByte : (p : TelemetryPacket) → All IsByte (telemetry_body p)
unfolding telemetry_body pack_le
telemetry_body-IsByte p = omega arith

serialize-IsValid : (p : TelemetryPacket) → IsValid (serialize_telemetry_packet p)
unfolding serialize_telemetry_packet pack_le unpack_le field
serialize-IsValid p = record {
  size = refl;
  checks =
      unpack_le-pack_le 2 (Crc.crc16_ccitt (telemetry_body p)) []
        (crc16_ccitt-lt (telemetry_body p) (telemetry_body-IsByte p));
  magic = refl;
  version = refl;
  packet_type = refl;
}

-- `decode_packet` accepts every packet that the flight software serializes, and returns its
-- fields, the enums by their names.
pub decode_packet-serialize :
    (p : TelemetryPacket)
    → InRange p
    → decode_packet (serialize_telemetry_packet p) ≡ ok (displayed p)
decode_packet-serialize p r =
    IsValid-decode_packet _ (serialize-IsValid p) ∙ ap ok (fields-serialize p r)
