-- ===== src/Scenario/Run.antt =====
-- The steps of a scenario: the command that a step sends, the wait behind it, and the report.
use astra_sim_fsw.Base.{
  ℕ, ◌+◌, Bool, true, false, List, [], ◌∷◌, ◌++◌, Option, none, some, Text, codes, decimal, Result,
  ok, err, type_error, ◌>>=◌,
}
use astra_sim_fsw.Base.Int.{ℤ, int_text}
use astra_sim_fsw.Base.Json.{Value, null, str, obj, Fields, end, get}
use astra_sim_fsw.Protocol.Telemetry.{Packet}
use astra_sim_fsw.Scenario.{Entry, resolve_step_timestamp, Round, wait_for_expectation}

unfoldable pub not_null : Option Value → Option Value
not_null (some null) = none
not_null v = v

-- `d.get(key)`, where a missing key and a null are both `None`.
unfoldable pub given : Text → Fields → Option Value
unfolding not_null
given key d = not_null (get key d)

-- A command that was handed to `send_command.py`.
pub record Send : Type 0 where
  pub sequence : ℕ
  pub command : Text
  pub argument : Option Text
  pub timestamp_ms : Option ℤ

-- The words of the call of `send_command.py`, behind the interpreter and the script.
unfoldable pub send_words : Text → ℕ → Send → List Text
send_words host port s =
    (codes "--host"
      ∷ host
      ∷ codes "--port"
      ∷ decimal port
      ∷ codes "--sequence"
      ∷ decimal s.sequence
      ∷ codes "--command"
      ∷ s.command
      ∷ [])
    ++ (elim s.argument [ none ↦ [] | some argument ↦ codes "--argument" ∷ argument ∷ [] ]
        ++ elim s.timestamp_ms [ none ↦ [] | some t ↦ codes "--timestamp-ms" ∷ int_text t ∷ [] ])

-- A word of a call has to be a text.
unfoldable pub word_of : Value → Result Text
word_of (str s) = ok s
word_of _ = err type_error

unfoldable pub optional_word : Option Value → Result (Option Text)
optional_word none = ok none
optional_word (some v) = word_of v >>= λ s. ok (some s)

-- The send of a step that has a command.
unfoldable pub prepare : ℤ → ℕ → Fields → Value → Result Send
prepare now_ms sequence step command = do
  timestamp ← resolve_step_timestamp now_ms step
  name ← word_of command
  argument ← optional_word (given (codes "argument") step)
  ok (record { sequence = sequence; command = name; argument = argument; timestamp_ms = timestamp })

-- What a call returns that returns nothing.
pub data Returned : Type 0 where
  returned : Returned

-- What a step needs from outside: the clock, and the subprocess of `send_command`, which raises
-- where it returns an error.
pub record Outside : Type 0 where
  -- The time when the command of this number is prepared.
  pub now_ms : ℕ → ℤ
  pub send : Send → Result Returned

unfoldable pub sent : Outside → Result Send → List Send × Result Returned
sent outside (err e) = ([], err e)
sent outside (ok s) = (s ∷ [], outside.send s)

unfoldable pub next_sequence : ℕ → Result Returned → Result ℕ
next_sequence sequence (ok returned) = ok (sequence + 1)
next_sequence sequence (err e) = err e

unfoldable pub begin_with : Outside → ℕ → Fields → Option Value → List Send × Result ℕ
unfolding next_sequence
begin_with outside sequence step none = ([], ok sequence)
begin_with outside sequence step (some command) =
    let done = sent outside (prepare (outside.now_ms sequence) sequence step command) in
    (done.0, next_sequence sequence done.1)

-- The first half of a step: the commands sent, and the next sequence number.
unfoldable pub begin_step : Outside → ℕ → Fields → List Send × Result ℕ
begin_step outside sequence step = begin_with outside sequence step (given (codes "command") step)

-- The state of the loop: the commands sent so far, the next sequence number and the packets.
pub record State : Type 0 where
  pub sends : List Send
  pub sequence : ℕ
  pub packets : List Entry

unfoldable pub expectation : Fields → Value
expectation step = elim (get (codes "expect") step) [ none ↦ obj end | some v ↦ v ]

-- The second half of a step: the wait, unless the send raised.
unfoldable pub end_step :
    State → Fields → List Round → List Send → Result ℕ → State × Result (Option Packet)
unfolding expectation
end_step s step rounds sends (err e) =
    (record { sends = s.sends ++ sends; sequence = s.sequence; packets = s.packets }, err e)
end_step s step rounds sends (ok sequence) =
    let waited = wait_for_expectation (expectation step) s.packets rounds in
    (record { sends = s.sends ++ sends; sequence = sequence; packets = waited.0 }, waited.1)

unfoldable pub run_step : Outside → State → Fields → List Round → State × Result (Option Packet)
run_step outside s step rounds =
    let begun = begin_step outside s.sequence step in end_step s step rounds begun.0 begun.1

-- What follows a step: the next steps where it matched, the end of the loop where it did not.
unfoldable pub proceed : State → Result (Option Packet) → State × Result Bool → State × Result Bool
proceed s (ok (some packet)) rest = rest
proceed s (ok none) rest = (s, ok false)
proceed s (err e) rest = (s, err e)

-- The loop over the steps, each with the turns of its wait; the value tells whether all passed.
unfoldable pub run_steps : Outside → State → List (Fields × List Round) → State × Result Bool
run_steps outside s [] = (s, ok true)
run_steps outside s ((step, rounds) ∷ steps) =
    let this = run_step outside s step rounds in
    proceed this.0 this.1 (run_steps outside this.0 steps)
