-- ===== src/Scenario.antt =====
-- tools/run_scenario.py: the timestamps, the listener, the matching of packets and the wait.
pub mod Listener
pub mod Wait
pub mod Run
pub mod Order
pub mod Server
pub mod Main
pub mod Passed
mod Tests
use astra_sim_fsw.Base.{
  ℕ, Bool, true, false, not, ◌&&◌, List, [], ◌∷◌, ◌++◌, Option, none, some, Text, codes,
  contains_text, any, Result, ok, err, Exception, value_error, type_error, ◌>>=◌, if◌then◌else◌,
  length, drop,
}
use astra_sim_fsw.Base.Int.{ℤ, pos, ◌+ℤ◌, int_text}
use astra_sim_fsw.Base.Dict.{Dict, lookup_number}
use astra_sim_fsw.Base.Json.{
  Value, null, bool, int, float, str, arr, obj, Fields, get, values, equals_int, equals_text,
  int_of,
}
use astra_sim_fsw.Protocol.Telemetry.{Packet, decode_packet, command_statuses}

-- `key in d`
unfoldable pub has : Text → Fields → Bool
has key d = elim (get key d) [ none ↦ false | some v ↦ true ]

-- `resolve_step_timestamp`, where `now_ms` is the clock in milliseconds.
unfoldable pub resolve_step_timestamp : ℤ → Fields → Result (Option ℤ)
resolve_step_timestamp now_ms step = elim (get (codes "timestamp_ms") step) [
  | some exact ↦ elim (get (codes "timestamp_offset_ms") step) [
    | some offset ↦ err (
        value_error (codes "scenario step cannot define both timestamp_ms and timestamp_offset_ms"))
    | none ↦ int_of exact >>= λ t. ok (some t)
  ]
  | none ↦ elim (get (codes "timestamp_offset_ms") step) [
    | some offset ↦ int_of offset >>= λ t. ok (some (now_ms +ℤ t))
    | none ↦ ok none
  ]
]

-- An entry of the list of packets: a packet, or `{"decode_error": ...}`.
pub data Entry : Type 0 where
  decoded : Packet → Entry
  decode_error : Text → Entry

-- One turn of the listener on a received datagram. An exception other than a `ValueError` ends
-- the thread.
unfoldable pub entry_of : List ℕ → Result Entry
entry_of bytes = elim (decode_packet bytes) [
  | ok packet ↦ ok (decoded packet)
  | err (value_error m) ↦ ok (decode_error m)
  | err e ↦ err e
]

-- `telemetry_listener` over the datagrams received: the packets, which are kept when an exception
-- ends it.
unfoldable pub telemetry_listener : List Entry → List (List ℕ) → List Entry
telemetry_listener packets [] = packets
telemetry_listener packets (bytes ∷ received) = elim (entry_of bytes) [
  | ok entry ↦ telemetry_listener (packets ++ (entry ∷ [])) received
  | err e ↦ packets
]

-- `expected[key]` behind `key in expected`, where `in` looks into texts and lists too, and then
-- the index fails.
unfoldable pub expected_value : Text → Value → Result (Option Value)
expected_value key (obj d) = ok (get key d)
expected_value key (str s) = if contains_text key s then err type_error else ok none
expected_value key (arr vs) = if any (equals_text key) (values vs) then err type_error else ok none
expected_value key _ = err type_error

-- An `ack_status` given as a number is replaced by its name.
status_text : ℤ → Text
status_text (pos n) = elim (lookup_number n command_statuses) [
  | some name ↦ name
  | none ↦ codes "UNKNOWN(" ++ (int_text (pos n) ++ codes ")")
]
status_text n = codes "UNKNOWN(" ++ (int_text n ++ codes ")")

unfoldable pub named_status : Value → Value
unfolding status_text
named_status (int n) = str (status_text n)
named_status (bool b) = str (status_text (pos (if b then 1 else 0)))
named_status v = v

-- The keys of an expectation in their order, with the test of the packet's field.
unfoldable pub checks : Packet → List (Text × (Value → Bool))
unfolding named_status
checks packet =
    (codes "ack_seq", equals_int (pos packet.last_command_sequence_number))
    ∷ (codes "ack_cmd", equals_text packet.last_command_id)
    ∷ (codes "ack_status", λ v. equals_text packet.last_command_status (named_status v))
    ∷ (codes "mode", equals_text packet.mode)
    ∷ (codes "fault", equals_text packet.last_fault)
    ∷ []

unfoldable pub passes : Value → List (Text × (Value → Bool)) → Result Bool
passes expected [] = ok true
passes expected ((key, test) ∷ rest) = elim (expected_value key expected) [
  | err e ↦ err e
  | ok none ↦ passes expected rest
  | ok (some v) ↦ elim (test v) [ true ↦ passes expected rest | false ↦ ok false ]
]

unfoldable pub packet_matches : Packet → Value → Result Bool
packet_matches packet expected = passes expected (checks packet)

-- The body of the loop on a packet, with what the rest of the loop gives.
unfoldable pub next_match : Packet → Result Bool → Result (Option Packet) → Result (Option Packet)
next_match packet (err e) rest = err e
next_match packet (ok true) rest = ok (some packet)
next_match packet (ok false) rest = rest

-- The loop over `packets[checked:]`.
unfoldable pub find_match : Value → List Entry → Result (Option Packet)
unfolding next_match
find_match expected [] = ok none
find_match expected (decode_error m ∷ entries) = find_match expected entries
find_match expected (decoded packet ∷ entries) =
    next_match packet (packet_matches packet expected) (find_match expected entries)

-- One turn of the wait before its deadline: what the listener appends before the slice
-- `packets[checked:]` is taken, and what it appends between that and `checked = len(packets)`.
pub record Round : Type 0 where
  pub before : List Entry
  pub during : List Entry

-- The end of a turn: the loop's result, or the turns that follow.
unfoldable pub end_turn :
    List Entry
    → Result (Option Packet)
    → List Entry × Result (Option Packet)
    → List Entry × Result (Option Packet)
end_turn present (ok none) rest = rest
end_turn present m rest = (present, m)

-- `wait_for_expectation` over its turns: the packets at the end, and the match.
unfoldable pub wait_from : Value → List Entry → ℕ → List Round → List Entry × Result (Option Packet)
unfolding end_turn
wait_from expected packets checked [] = (packets, ok none)
wait_from expected packets checked (round ∷ rounds) =
    let present = packets ++ round.before in
    let appended = present ++ round.during in
    end_turn present (find_match expected (drop checked present))
      (wait_from expected appended (length appended) rounds)

unfoldable pub wait_for_expectation :
    Value → List Entry → List Round → List Entry × Result (Option Packet)
wait_for_expectation expected packets rounds = wait_from expected packets 0 rounds
