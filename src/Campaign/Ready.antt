-- ===== src/Campaign/Ready.antt =====
-- When tools/run_scenario.py can carry out a scenario: its numbers, its steps and its commands.
use astra_sim_fsw.Base.{
  ℕ, Bool, true, false, ◌&&◌, ◌≡◌, ◌≢◌, Option, none, some, Text, Result, ok, err, All, ◌<◌, List,
  [], ◌∷◌, ◌+◌,
}
use astra_sim_fsw.Base.Int.{ℤ, pos}
use astra_sim_fsw.Base.Json.{Value, str, obj, Fields, get, equals_int, equals_text}
use astra_sim_fsw.Base.{codes}
use astra_sim_fsw.Protocol.Command.{commands, subscript, parse_argument}
use astra_sim_fsw.Scenario.Run.{given, prepare, Send, expectation}
use astra_sim_fsw.Scenario.Server.{Config, config_of, server_args}
use astra_sim_fsw.Scenario.Main.{steps_of}

abbrev pub succeeds : Result ℕ → Bool
succeeds (ok n) = true
succeeds (err e) = false

-- `send_command.py` knows the command and takes the argument.
unfoldable pub is_known : Result Send → Bool
unfolding subscript parse_argument
is_known (err e) = false
is_known (ok s) =
    succeeds (subscript s.command commands) && succeeds (parse_argument s.command s.argument)

unfoldable pub is_sendable : ℤ → ℕ → Fields → Bool
unfolding is_known
is_sendable now_ms sequence step = elim (given (codes "command") step) [
  | none ↦ true
  | some command ↦ is_known (prepare now_ms sequence step command)
]

-- `step["expect"][key]`
expected : Text → Fields → Option Value
unfolding expectation
expected key step = elim (expectation step) [ obj fields ↦ get key fields | _ ↦ none ]

expects_int : ℤ → Option Value → Bool
expects_int n none = false
expects_int n (some v) = equals_int n v

expects_value : Option Value → Option Value → Bool
expects_value (some (str command)) (some v) = equals_text command v
expects_value _ _ = false

-- Each step that sends a command expects the acknowledgement of it: the number that the command is
-- sent with, counted from the first argument, and the command's name.
unfoldable pub acks_match : ℕ → List Fields → Bool
unfolding expected expects_int expects_value
acks_match sequence [] = true
acks_match sequence (step ∷ steps) = elim (given (codes "command") step) [
  | none ↦ acks_match sequence steps
  | some command ↦
      expects_int (pos sequence) (expected (codes "ack_seq") step)
      && (expects_value (some command) (expected (codes "ack_cmd") step)
          && acks_match (sequence + 1) steps)
]

-- The numbers of the scenario and the arguments of the server can be read, the ports are two that
-- fit into 16 bits, the steps pass the check, and each of them sends no command or one that is
-- known, at any time and with any sequence number, and
-- expects the acknowledgement of that command.
pub record Ready (host : Text) (scenario : Fields) : Type 0 where
  pub command_port : ℕ
  pub telemetry_port : ℕ
  pub config : Config
  pub args : List Text
  pub steps : List Fields
  pub config_read : config_of scenario ≡ ok config
  pub command_port_read : config.command_port ≡ pos command_port
  pub telemetry_port_read : config.telemetry_port ≡ pos telemetry_port
  pub ports_differ : command_port ≢ telemetry_port
  pub ports_fit : (command_port < 65536) × (telemetry_port < 65536)
  pub args_made : server_args host config ≡ ok args
  pub steps_checked : steps_of scenario ≡ ok steps
  pub sendable :
      (now_ms : ℤ) (sequence : ℕ) → All (λ step. is_sendable now_ms sequence step ≡ true) steps
  pub acks : acks_match 1 steps ≡ true
