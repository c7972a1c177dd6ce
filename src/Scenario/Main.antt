-- ===== src/Scenario/Main.antt =====
-- The whole run of a scenario: the checks, the server, the steps, the report and the exit code.
use astra_sim_fsw.Base.{
  ℕ, ◌+◌, Bool, true, false, not, ◌&&◌, List, [], ◌∷◌, ◌++◌, map, Option, none, some, Text, codes,
  decimal, rstrip_of, is_space, join, Result, ok, err, value_error, attribute_error, ◌>>=◌,
  if◌then◌else◌,
}
use astra_sim_fsw.Base.Json.{Value, arr, obj, Items, nil, cons, Fields, get}
use astra_sim_fsw.Scenario.{Entry, decoded, decode_error, Round, has}
use astra_sim_fsw.Scenario.Run.{Send, Outside, State, run_steps}
use astra_sim_fsw.Scenario.Server.{Config, config_of, server_args}

-- The check of the steps before anything is started.
unfoldable pub checked_steps : Items → Result (List Fields)
checked_steps nil = ok []
checked_steps (cons (obj step) steps) =
    if has (codes "timestamp_ms") step && has (codes "timestamp_offset_ms") step
    then err (
        value_error (codes "scenario step cannot define both timestamp_ms and timestamp_offset_ms"))
    else checked_steps steps >>= λ rest. ok (step ∷ rest)
checked_steps (cons _ steps) = err (value_error (codes "every scenario step must be a mapping"))

-- What the run needs from outside: whether the server's executable exists, the clock and the
-- sends, and the arrivals at the listener, turn by turn of each step's wait. `two_places` is the
-- `:.2f` format of a float given by its bits, `dump` is `yaml.safe_dump`.
pub record Surroundings : Type 0 where
  pub host : Text
  pub server_exists : Bool
  pub outside : Outside
  pub rounds : ℕ → List Round
  pub server_output : Text
  pub two_places : ℕ → Text
  pub dump : Value → Text

unfoldable pub with_rounds : (ℕ → List Round) → ℕ → List Fields → List (Fields × List Round)
with_rounds rounds n [] = []
with_rounds rounds n (step ∷ steps) = (step, rounds n) ∷ with_rounds rounds (1 + n) steps

unfoldable pub packet_line : (ℕ → Text) → Entry → Text
packet_line two_places (decode_error m) = codes "decode_error=" ++ m
packet_line two_places (decoded p) =
    codes "seq="
    ++ (decimal p.sequence_number
        ++ (codes " t_ms="
            ++ (decimal p.timestamp_ms
                ++ (codes " mode="
                    ++ (p.mode
                        ++ (codes " fault="
                            ++ (p.last_fault
                                ++ (codes " ack_seq="
                                    ++ (decimal p.last_command_sequence_number
                                        ++ (codes " ack_cmd="
                                            ++ (p.last_command_id
                                                ++ (codes " ack_status="
                                                    ++ (p.last_command_status
                                                        ++ (codes " cpu="
                                                            ++ (two_places p.cpu_load_percent
                                                            ++ (codes "% mem="
                                                            ++ (two_places p.memory_load_percent
                                                            ++ (codes "% hb="
                                                            ++ decimal
                                                            p.heartbeat_count))))))))))))))))))

rstrip : Text → Text
rstrip s = rstrip_of is_space s

-- `write_report`: the text of the report.
unfoldable pub write_report : Surroundings → Text → Bool → List Entry → Fields → Text
unfolding rstrip
write_report around name passed packets scenario = join (codes "\n") (
    (codes "# Scenario Output: " ++ name)
    ∷ []
    ∷ (codes "Result: " ++ (if passed then codes "PASS" else codes "FAIL"))
    ∷ []
    ∷ codes "## Scenario"
    ∷ []
    ∷ codes "```yaml"
    ∷ rstrip (around.dump (obj scenario))
    ∷ codes "```"
    ∷ []
    ∷ codes "## Telemetry Packets"
    ∷ []
    ∷ codes "```text"
    ∷ (map (packet_line around.two_places) packets
        ++ (codes "```"
            ∷ []
            ∷ codes "## C++ Server Output"
            ∷ []
            ∷ codes "```text"
            ∷ rstrip around.server_output
            ∷ codes "```"
            ∷ []
            ∷ [])))

-- What a run leaves: whether the server was started, the commands sent, the report, the exit code.
pub record Outcome : Type 0 where
  pub started : Bool
  pub sends : List Send
  pub report : Option Text
  pub result : Result ℕ

abbrev pub not_started : Result ℕ → Outcome
not_started result = record { started = false; sends = []; report = none; result = result }

-- The end of a run: the report is written unless the steps raised.
unfoldable pub finish : Surroundings → Text → Fields → State × Result Bool → Outcome
finish around name scenario (s, err e) = record {
  started = true;
  sends = s.sends;
  report = none;
  result = err e;
}
finish around name scenario (s, ok passed) = record {
  started = true;
  sends = s.sends;
  report = some (write_report around name passed s.packets scenario);
  result = ok (if passed then 0 else 1);
}

-- The state behind the start of the listener and the server.
abbrev pub start : State
start = record { sends = []; sequence = 1; packets = [] }

unfoldable pub launch : Surroundings → Text → Fields → Config → List Fields → Outcome
launch around name scenario config steps =
    if not around.server_exists then not_started (ok 1) else elim (server_args around.host config) [
      | err e ↦ not_started (err e)
      | ok args ↦
          finish around name scenario
            (run_steps around.outside start (with_rounds around.rounds 0 steps))
    ]

-- The steps of a scenario: a list, and empty where it has none.
unfoldable pub steps_of : Fields → Result (List Fields)
steps_of scenario = elim (get (codes "steps") scenario) [
  | none ↦ ok []
  | some v ↦ elim v [
    | arr steps ↦ checked_steps steps
    | _ ↦ err (value_error (codes "scenario steps must be a list"))
  ]
]

-- The checks of `main`; only the steps' errors are reported, the others are raised.
unfoldable pub main_mapping : Surroundings → Text → Fields → Outcome
main_mapping around name scenario = elim (config_of scenario) [
  | err e ↦ not_started (err e)
  | ok config ↦ elim (steps_of scenario) [
    | err e ↦ not_started (ok 1)
    | ok steps ↦ launch around name scenario config steps
  ]
]

-- `main`, from what `yaml.safe_load` gives. `name` is the scenario's name, or the file's.
unfoldable pub main : Surroundings → Text → Value → Outcome
main around name (obj scenario) = main_mapping around name scenario
main around name _ = not_started (err attribute_error)
