-- ===== src/Scenario/Tests.antt =====
-- A scenario of two commands, and the wait that misses a packet.
use astra_sim_fsw.Base.{
  true, List, [], ◌∷◌, ◌++◌, ◌≡◌, refl, none, some, Text, codes, text_eq, decimal, decimal_loop, ok,
}
use astra_sim_fsw.Base.Int.{pos, int_text}
use astra_sim_fsw.Base.Json.{
  Value, int, str, obj, arr, Fields, end, field, nil, cons, get, int_of, equals_text,
}
use astra_sim_fsw.Protocol.Telemetry.{Packet}
use astra_sim_fsw.Scenario.{
  Entry, decoded, has, resolve_step_timestamp, telemetry_listener, expected_value, checks, passes,
  packet_matches, next_match, find_match, Round, end_turn, wait_from, wait_for_expectation,
}
use astra_sim_fsw.Scenario.Listener.{Heard, telemetry_listener-Heard}
use astra_sim_fsw.Scenario.Wait.{looked_at, wait_for_expectation_lem}
use astra_sim_fsw.Scenario.Run.{
  not_null, given, word_of, optional_word, prepare, returned, Outside, sent, next_sequence,
  begin_with, begin_step, expectation, end_step, run_step, proceed, run_steps,
}
use astra_sim_fsw.Scenario.Order.{IsInOrder, commands_of, run_steps-IsInOrder}
use astra_sim_fsw.Scenario.Server.{
  Config, config_of, int_field, int_or_zero, sensor_words, watchdog_words, server_args,
}
use astra_sim_fsw.Scenario.Main.{
  Surroundings, checked_steps, with_rounds, finish, start, launch, steps_of, main_mapping, main,
}
use astra_sim_fsw.Scenario.Passed.{IsComplete, main_mapping-IsComplete}

telemetry_listener-Heard_example :
    (entries : List Entry) × (telemetry_listener [] ((1 ∷ 2 ∷ []) ∷ [] ∷ []) ≡ [] ++ entries)
    × Heard ((1 ∷ 2 ∷ []) ∷ [] ∷ []) entries
telemetry_listener-Heard_example = telemetry_listener-Heard [] ((1 ∷ 2 ∷ []) ∷ [] ∷ [])

abbrev packet : Text → Packet
packet mode = record {
  sequence_number = 1;
  timestamp_ms = 1000;
  mode = mode;
  last_fault = codes "NONE";
  cpu_load_percent = 0;
  memory_load_percent = 0;
  heartbeat_count = 1;
  last_command_sequence_number = 1;
  last_command_id = codes "SET_MODE";
  last_command_status = codes "ACCEPTED";
}

abbrev expect_safe : Value
expect_safe = obj (field (codes "mode") (str (codes "SAFE")) end)

-- The packet that arrives behind the slice of the first turn is missed, though it matches.
missed :
    (find_match expect_safe (decoded (packet (codes "SAFE")) ∷ [])
      ≡ ok (some (packet (codes "SAFE"))))
    × ((wait_for_expectation expect_safe [] (
          record { before = []; during = decoded (packet (codes "SAFE")) ∷ [] }
          ∷ record { before = []; during = [] }
          ∷ [])).1
        ≡ ok none)
unfolding wait_for_expectation wait_from end_turn find_match next_match packet_matches passes checks
    expected_value get codes text_eq equals_text
missed = (refl, refl)

wait_for_expectation_lem_example :
    (wait_for_expectation expect_safe [] (
      record { before = []; during = decoded (packet (codes "SAFE")) ∷ [] }
      ∷ record { before = []; during = [] }
      ∷ [])).1
    ≡ find_match expect_safe ([] ++ ([] ++ looked_at (record { before = []; during = [] } ∷ [])))
wait_for_expectation_lem_example =
    wait_for_expectation_lem expect_safe [] (record { before = []; during = [] } ∷ []) []
      (decoded (packet (codes "SAFE")) ∷ [])

abbrev step : Text → Fields
step command = field (codes "command") (str command) (field (codes "expect") (obj end) end)

abbrev outside : Outside
outside = record { now_ms = λ n. pos 5000; send = λ s. ok returned }

abbrev rounds : List Round
rounds = record { before = decoded (packet (codes "SAFE")) ∷ []; during = [] } ∷ []

abbrev steps : List (Fields × List Round)
steps = (step (codes "NOOP"), rounds) ∷ (step (codes "CLEAR_FAULT"), rounds) ∷ []

run_steps-IsInOrder_example : IsInOrder start (commands_of steps) (run_steps outside start steps)
run_steps-IsInOrder_example = run_steps-IsInOrder outside start steps

abbrev config : Config
config = record {
  command_port = pos 6000;
  telemetry_port = pos 5005;
  loop_count = pos 22;
  sensor_timeout_loop = none;
  watchdog_timeout_loop = some (int (pos 7));
}

abbrev words : List Text
unfolding codes
words = codes "6000" ∷ codes "127.0.0.1" ∷ codes "5005" ∷ codes "22" ∷ codes "0" ∷ codes "7" ∷ []

worded : server_args (codes "127.0.0.1") config ≡ ok words
unfolding server_args sensor_words watchdog_words int_or_zero int_of int_text decimal decimal_loop
    codes
worded = refl

abbrev around : Surroundings
around = record {
  host = codes "127.0.0.1";
  server_exists = true;
  outside = outside;
  rounds = λ n. rounds;
  server_output = [];
  two_places = λ n. [];
  dump = λ v. [];
}

abbrev scenario : Fields
scenario =
    field (codes "steps")
      (arr (cons (obj (step (codes "NOOP"))) (cons (obj (step (codes "CLEAR_FAULT"))) nil))) end

passed : (main around (codes "two") (obj scenario)).result ≡ ok 0
unfolding main main_mapping config_of int_field steps_of checked_steps launch server_args
    sensor_words watchdog_words finish with_rounds run_steps run_step begin_step begin_with prepare
    optional_word word_of sent next_sequence given not_null resolve_step_timestamp end_step
    expectation proceed wait_for_expectation wait_from end_turn find_match next_match packet_matches
    passes checks expected_value has get codes text_eq
passed = refl

main_mapping-IsComplete_example :
    (steps : List Fields) × (steps_of scenario ≡ ok steps)
    × IsComplete around steps (main around (codes "two") (obj scenario))
main_mapping-IsComplete_example = main_mapping-IsComplete around (codes "two") scenario passed
