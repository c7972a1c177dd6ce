-- ===== src/Protocol/Dashboard/Agrees.antt =====
-- The dashboard against the receiver.
use astra_sim_fsw.Base.{
  ℕ, ◌-◌, List, ◌≡◌, ◌≢◌, ◌⊎◌, inl, inr, refl, arith, codes, ok, err, Result, Exception, Bool, true,
  false, length, take, ◌==◌, if◌then◌else◌, decimal,
}
use astra_sim_fsw.Base.Dict.{lookup_number}
use astra_sim_fsw.Protocol.Telemetry
use astra_sim_fsw.Protocol.Telemetry.{
  name_of, field, unknown, bad_type, bad_version, bad_magic, bad_crc, wrong_size,
}
use astra_sim_fsw.Protocol.Crc
use astra_sim_fsw.Protocol.Dashboard.{Packet, fields, modes, command_name, decode_packet}

-- A mode that only the receiver names.
abbrev pub IsUnnamed : ℕ → Type 0
IsUnnamed mode = (mode ≡ 6) ⊎ (mode ≡ 7)

name_of_named : (mode : ℕ) → ¬ IsUnnamed mode → name_of mode modes ≡ name_of mode Telemetry.modes
unfolding name_of lookup_number
name_of_named mode h = ground arith

name_of_unnamed : (mode : ℕ) → IsUnnamed mode → name_of mode modes ≢ name_of mode Telemetry.modes
unfolding name_of lookup_number unknown codes decimal
name_of_unnamed mode (inl e) h = ground (arith, rw e at h)
name_of_unnamed mode (inr e) h = ground (arith, rw e at h)

-- What the two programs agree on, for the packet in `bytes`.
pub record Agree (bytes : List ℕ) (p : Packet) (q : Telemetry.Packet) : Type 0 where
  pub sequence_number : p.sequence_number ≡ q.sequence_number
  pub timestamp_ms : p.timestamp_ms ≡ q.timestamp_ms
  pub mode_named : ¬ IsUnnamed (field 1 20 bytes) → p.mode ≡ q.mode
  pub mode_unnamed : IsUnnamed (field 1 20 bytes) → p.mode ≢ q.mode
  pub last_fault : p.last_fault ≡ q.last_fault
  pub cpu_load_percent : p.cpu_load_percent ≡ q.cpu_load_percent
  pub memory_load_percent : p.memory_load_percent ≡ q.memory_load_percent
  pub heartbeat_count : p.heartbeat_count ≡ q.heartbeat_count
  pub acknowledged : p.last_command_sequence_number ≡ q.last_command_sequence_number
  pub last_command_id : p.last_command_id ≡ q.last_command_id
  pub last_command_status :
      name_of p.last_command_status Telemetry.command_statuses ≡ q.last_command_status

pub data Agreement (bytes : List ℕ) : Result Packet → Result Telemetry.Packet → Type 0 where
  agree : {p : Packet} {q : Telemetry.Packet} → Agree bytes p q → Agreement bytes (ok p) (ok q)
  refuse : {d e : Exception} → d ≡ e → Agreement bytes (err d) (err e)

fields-Agree : (bytes : List ℕ) → Agree bytes (fields bytes) (Telemetry.fields bytes)
unfolding fields Telemetry.fields command_name Telemetry.command_name
fields-Agree bytes = record {
  sequence_number = refl;
  timestamp_ms = refl;
  mode_named = name_of_named (field 1 20 bytes);
  mode_unnamed = name_of_unnamed (field 1 20 bytes);
  last_fault = refl;
  cpu_load_percent = refl;
  memory_load_percent = refl;
  heartbeat_count = refl;
  acknowledged = refl;
  last_command_id = refl;
  last_command_status = refl;
}

if-Agreement :
    (bytes : List ℕ) (b : Bool) (m : Result Packet) (n : Result Telemetry.Packet) (e : Exception)
    → Agreement bytes m n
    → Agreement bytes (if b then m else err e) (if b then n else err e)
if-Agreement bytes true m n e h = h
if-Agreement bytes false m n e h = refuse refl

-- On every input the dashboard and the receiver raise the same error, or return packets that
-- agree in all fields but these: the dashboard leaves the status a number, which the receiver
-- names, and shows another text for the mode exactly when the mode is STANDBY or TEST.
pub decode_packet-Agreement :
    (bytes : List ℕ) → Agreement bytes (decode_packet bytes) (Telemetry.decode_packet bytes)
unfolding decode_packet Telemetry.decode_packet
decode_packet-Agreement bytes =
    let crc = Crc.crc16_ccitt (take (length bytes - 2) bytes) in
    let same_fields = agree (fields-Agree bytes) in
    let packet_type =
      if-Agreement bytes (field 2 6 bytes == 1) _ _ (bad_type (field 2 6 bytes)) same_fields in
    let version =
      if-Agreement bytes (field 2 4 bytes == 1) _ _ (bad_version (field 2 4 bytes)) packet_type in
    let magic =
      if-Agreement bytes (field 4 0 bytes == 0x41535452) _ _ (bad_magic (field 4 0 bytes))
        version in
    let checks =
      if-Agreement bytes (field 2 41 bytes == crc) _ _ (bad_crc crc (field 2 41 bytes)) magic in
    if-Agreement bytes (length bytes == 43) _ _ (wrong_size (length bytes)) checks
