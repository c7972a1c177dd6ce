-- ===== src/Campaign/MonteCarlo.antt =====
-- tools/run_monte_carlo.py: the generated cases and their scenarios.
pub mod Run
pub mod Cases
pub mod Exit
use astra_sim_fsw.Base.{
  ℕ, zero, suc, ◌+◌, ◌-◌, List, [], ◌∷◌, ◌++◌, Option, none, some, Text, codes, decimal, length,
  map,
}
use astra_sim_fsw.Base.Int.{pos}
use astra_sim_fsw.Base.Json.{object, Value, int, str, arr, obj, Fields, items}

-- An entry of `templates`.
pub record Template : Type 0 where
  pub suffix : Text
  pub description : Text
  pub loop_count : ℕ
  pub sensor_timeout_loop : Option ℕ
  pub watchdog_timeout_loop : Option ℕ
  pub requirements : List Text
  pub steps : List Fields

-- What `rng` draws for a trial, in the order of the calls: the port, the two loops, and the place
-- of the template.
pub record Draws : Type 0 where
  pub command_port : ℕ
  pub sensor_loop : ℕ
  pub watchdog_loop : ℕ
  pub place : ℕ

unfoldable pub acknowledged : ℕ → Text → ℕ → Text → Text → Value
acknowledged sequence command status mode fault = obj (
    object (
      (codes "ack_seq", int (pos sequence))
      ∷ (codes "ack_cmd", str command)
      ∷ (codes "ack_status", int (pos status))
      ∷ (codes "mode", str mode)
      ∷ (codes "fault", str fault)
      ∷ []))

-- A step that sends a command with an argument.
unfoldable pub command_step : Text → Text → Text → Value → Fields
command_step name command argument expect = object (
    (codes "name", str name)
    ∷ (codes "command", str command)
    ∷ (codes "argument", str argument)
    ∷ (codes "expect", expect)
    ∷ [])

unfoldable pub set_nominal : Text → Fields
unfolding command_step acknowledged
set_nominal name =
    command_step name (codes "SET_MODE") (codes "NOMINAL")
      (acknowledged 1 (codes "SET_MODE") 0 (codes "NOMINAL") (codes "NONE"))

-- A step that only waits for the SAFE mode.
unfoldable pub wait_safe : Text → Text → Fields
wait_safe name fault = object (
    (codes "name", str name)
    ∷ (
      codes "expect",
      obj (object ((codes "mode", str (codes "SAFE")) ∷ (codes "fault", str fault) ∷ [])),
    )
    ∷ [])

unfoldable pub nominal_transition : Template
unfolding set_nominal
nominal_transition = record {
  suffix = codes "nominal_transition";
  description = codes "Randomized verification of BOOT to NOMINAL transition.";
  loop_count = 12;
  sensor_timeout_loop = none;
  watchdog_timeout_loop = none;
  requirements = codes "FSW-REQ-002" ∷ codes "FSW-REQ-106" ∷ codes "VER-REQ-006" ∷ [];
  steps = set_nominal (codes "set nominal") ∷ [];
}

unfoldable pub invalid_transition : Template
unfolding command_step acknowledged
invalid_transition = record {
  suffix = codes "invalid_transition";
  description = codes "Randomized verification of invalid transition rejection.";
  loop_count = 12;
  sensor_timeout_loop = none;
  watchdog_timeout_loop = none;
  requirements = codes "FSW-REQ-003" ∷ codes "FSW-REQ-106" ∷ codes "VER-REQ-006" ∷ [];
  steps =
      command_step (codes "reject boot to recovery") (codes "SET_MODE") (codes "RECOVERY")
        (acknowledged 1 (codes "SET_MODE") 2 (codes "BOOT") (codes "NONE"))
      ∷ [];
}

unfoldable pub clear_step : Fields
unfolding acknowledged
clear_step = object (
    (codes "name", str (codes "clear fault"))
    ∷ (codes "command", str (codes "CLEAR_FAULT"))
    ∷ (
      codes "expect",
      acknowledged 3 (codes "CLEAR_FAULT") 0 (codes "DEGRADED_PAYLOAD") (codes "NONE"),
    )
    ∷ [])

unfoldable pub cpu_fault_clear : Template
unfolding set_nominal command_step acknowledged clear_step
cpu_fault_clear = record {
  suffix = codes "cpu_fault_clear";
  description = codes "Randomized verification of CPU fault and fault clearing.";
  loop_count = 22;
  sensor_timeout_loop = none;
  watchdog_timeout_loop = none;
  requirements =
      codes "FSW-REQ-002"
      ∷ codes "FSW-REQ-004"
      ∷ codes "FSW-REQ-005"
      ∷ codes "FSW-REQ-106"
      ∷ codes "VER-REQ-006"
      ∷ [];
  steps =
      set_nominal (codes "set nominal")
      ∷ command_step (codes "inject cpu fault") (codes "INJECT_FAULT") (codes "CPU_OVERLOAD") (
          acknowledged 2 (codes "INJECT_FAULT") 0 (codes "DEGRADED_PAYLOAD") (codes "CPU_OVERLOAD"))
      ∷ clear_step
      ∷ [];
}

unfoldable pub sensor_timeout : ℕ → Template
unfolding set_nominal wait_safe
sensor_timeout sensor_loop = record {
  suffix = codes "sensor_timeout";
  description = codes "Randomized verification of sensor timeout forcing SAFE mode.";
  loop_count = 22;
  sensor_timeout_loop = some sensor_loop;
  watchdog_timeout_loop = none;
  requirements =
      codes "FSW-REQ-002" ∷ codes "FSW-REQ-006" ∷ codes "FSW-REQ-106" ∷ codes "VER-REQ-006" ∷ [];
  steps =
      set_nominal (codes "set nominal before sensor timeout")
      ∷ wait_safe (codes "wait for sensor timeout safe mode") (codes "SENSOR_TIMEOUT")
      ∷ [];
}

unfoldable pub watchdog_timeout : ℕ → Template
unfolding set_nominal wait_safe
watchdog_timeout watchdog_loop = record {
  suffix = codes "watchdog_timeout";
  description = codes "Randomized verification of watchdog timeout forcing SAFE mode.";
  loop_count = 22;
  sensor_timeout_loop = none;
  watchdog_timeout_loop = some watchdog_loop;
  requirements =
      codes "FSW-REQ-002" ∷ codes "FSW-REQ-007" ∷ codes "FSW-REQ-106" ∷ codes "VER-REQ-006" ∷ [];
  steps =
      set_nominal (codes "set nominal before watchdog timeout")
      ∷ wait_safe (codes "wait for watchdog timeout safe mode") (codes "WATCHDOG_DEADLINE_MISS")
      ∷ [];
}

-- `templates[place]` of a list that is not empty; a place behind its end is the last.
unfoldable pub element : ℕ → Template → List Template → Template
element zero first others = first
element (suc place) first [] = first
element (suc place) first (second ∷ others) = element place second others

-- `rng.choice(templates)`
unfoldable pub choice : Draws → Template
unfolding element nominal_transition invalid_transition cpu_fault_clear sensor_timeout
    watchdog_timeout
choice draws = element draws.place nominal_transition (
    invalid_transition
    ∷ cpu_fault_clear
    ∷ sensor_timeout draws.sensor_loop
    ∷ watchdog_timeout draws.watchdog_loop
    ∷ [])
