-- ===== src/Scenario/Order.antt =====
-- The order and the numbers of the commands that a scenario sends.
use astra_sim_fsw.Base.{
  ℕ, zero, suc, ◌+◌, Bool, true, false, List, [], ◌∷◌, ◌++◌, map, append_assoc, append-nil, ◌≡◌,
  ◌≢◌, refl, sym, ap, ◌∙◌, Option, none, some, Text, codes, Result, ok, err, Exception,
  ok-injective, >>=-ok, length, subst,
}
use astra_sim_fsw.Base.Int.{ℤ}
use astra_sim_fsw.Base.Json.{Value, str, Fields}
use astra_sim_fsw.Protocol.Telemetry.{Packet}
use astra_sim_fsw.Scenario.{Round, resolve_step_timestamp}
use astra_sim_fsw.Scenario.Run.{
  given, Send, word_of, optional_word, prepare, Returned, returned, Outside, sent, next_sequence,
  begin_with, begin_step, State, end_step, run_step, proceed, run_steps,
}

-- What the first half of a step with the number `n` does with its command.
data Begun (n : ℕ) : Option Value → List Send × Result ℕ → Type 0 where
  waits : Begun n none ([], ok n)
  refuses : {command : Option Value} {e : Exception} → Begun n command ([], err e)
  delivers :
      {command : Value} (x : Send)
      → x.sequence ≡ n
      → command ≡ str x.command
      → Begun n (some command) (x ∷ [], ok (n + 1))
  fails :
      {command : Option Value} (x : Send) {e : Exception}
      → x.sequence ≡ n
      → Begun n command (x ∷ [], err e)

word_of-ok : (v : Value) {s : Text} → word_of v ≡ ok s → v ≡ str s
unfolding word_of
word_of-ok (str t) h = ap str (ok-injective h)
word_of-ok _ h = absurd (cc h)

prepare_lem :
    (now_ms : ℤ) (n : ℕ) (step : Fields) (command : Value) {x : Send}
    → prepare now_ms n step command ≡ ok x
    → (x.sequence ≡ n) × (command ≡ str x.command)
unfolding prepare
prepare_lem now_ms n step command h =
    let (timestamp, e1, h1) = >>=-ok (resolve_step_timestamp now_ms step) _ h in
    let (name, e2, h2) = >>=-ok (word_of command) _ h1 in
    let (argument, e3, h3) = >>=-ok (optional_word (given (codes "argument") step)) _ h2 in
    subst (λ x. (x.sequence ≡ n) × (command ≡ str x.command)) (ok-injective h3)
      (refl, word_of-ok command e2)

begin_with-Begun :
    (outside : Outside) (n : ℕ) (step : Fields) (command : Option Value)
    → Begun n command (begin_with outside n step command)
unfolding begin_with sent
begin_with-Begun outside n step none = waits
begin_with-Begun outside n step (some command) = go (prepare (outside.now_ms n) n step command) refl
  where
    after :
        (x : Send) (r : Result Returned)
        → (x.sequence ≡ n) × (command ≡ str x.command)
        → Begun n (some command) (x ∷ [], next_sequence n r)
    after x (ok returned) (number, name) = delivers x number name
    after x (err e) (number, name) = fails x number

    go :
        (p : Result Send)
        → prepare (outside.now_ms n) n step command ≡ p
        → Begun n (some command) ((sent outside p).0, next_sequence n (sent outside p).1)
    go (err e) h = refuses
    go (ok x) h = after x (outside.send x) (prepare_lem (outside.now_ms n) n step command h)

-- `n`, `n + 1`, ..., `count` numbers.
abbrev pub numbers_from : ℕ → ℕ → List ℕ
numbers_from n zero = []
numbers_from n (suc count) = n ∷ numbers_from (n + 1) count

abbrev with_command : Option Value → List Value → List Value
with_command none rest = rest
with_command (some command) rest = command ∷ rest

-- The commands of the steps that have one.
abbrev pub commands_of : List (Fields × List Round) → List Value
commands_of [] = []
commands_of ((step, rounds) ∷ steps) =
    with_command (given (codes "command") step) (commands_of steps)

-- What a run from a state adds to the commands sent: they are numbered without a gap, and a run
-- that passes sends the commands of all steps in their order.
abbrev pub IsInOrder : State → List Value → State × Result Bool → Type 0
IsInOrder s commands r =
    (new : List Send) × (r.0.sends ≡ s.sends ++ new)
    × (map (λ x. x.sequence) new ≡ numbers_from s.sequence (length new))
    × (r.1 ≡ ok true → map (λ x. str x.command) new ≡ commands)

-- A step that waits adds nothing.
waited-IsInOrder :
    (s t : State) (commands : List Value) (r : State × Result Bool)
    → t.sends ≡ s.sends ++ []
    → t.sequence ≡ s.sequence
    → IsInOrder t commands r
    → IsInOrder s commands r
waited-IsInOrder s t commands r added_before sequence (new, added, numbers, passed) = (
  new,
  added ∙ ap (λ l. l ++ new) (added_before ∙ append-nil s.sends),
  numbers ∙ ap (λ n. numbers_from n (length new)) sequence,
  passed,
)

-- A step that sends adds its command, with the number at hand.
sent-IsInOrder :
    (s t : State) (x : Send) (commands : List Value) (r : State × Result Bool)
    → t.sends ≡ s.sends ++ (x ∷ [])
    → t.sequence ≡ s.sequence + 1
    → x.sequence ≡ s.sequence
    → IsInOrder t commands r
    → IsInOrder s (str x.command ∷ commands) r
sent-IsInOrder s t x commands r added_before sequence number (new, added, numbers, passed) = (
  x ∷ new,
  added ∙ ap (λ l. l ++ new) added_before ∙ append_assoc s.sends (x ∷ []) new,
  cc (number, numbers, sequence),
  λ h. ap (λ l. str x.command ∷ l) (passed h),
)

-- A run that ends with a step.
stopped-IsInOrder :
    (s t : State) (new : List Send) (commands : List Value) (r : Result Bool)
    → r ≢ ok true
    → t.sends ≡ s.sends ++ new
    → map (λ x. x.sequence) new ≡ numbers_from s.sequence (length new)
    → IsInOrder s commands (t, r)
stopped-IsInOrder s t new commands r not_passed added numbers =
    (new, added, numbers, λ h. absurd (not_passed h))

ok_false≢ok_true : ok false ≢ ok true
ok_false≢ok_true h = cc h

err≢ok : {e : Exception} {b : Bool} → err e ≢ ok b
err≢ok h = cc h

proceed-IsInOrder :
    (s t : State) (m : Result (Option Packet)) (new : List Send) (commands : List Value)
    (r : State × Result Bool)
    → t.sends ≡ s.sends ++ new
    → map (λ x. x.sequence) new ≡ numbers_from s.sequence (length new)
    → IsInOrder s commands r
    → IsInOrder s commands (proceed t m r)
unfolding proceed
proceed-IsInOrder s t (ok (some p)) new commands r added numbers on = on
proceed-IsInOrder s t (ok none) new commands r added numbers on =
    stopped-IsInOrder s t new commands (ok false) ok_false≢ok_true added numbers
proceed-IsInOrder s t (err e) new commands r added numbers on =
    stopped-IsInOrder s t new commands (err e) err≢ok added numbers

one_number : (x : Send) (n : ℕ) → x.sequence ≡ n → x.sequence ∷ [] ≡ numbers_from n 1
one_number x n h = cc h

module _ (outside : Outside) (s : State) (step : Fields) (rounds : List Round)
    (steps : List (Fields × List Round))
    (later : (t : State) → IsInOrder t (commands_of steps) (run_steps outside t steps)) where
  -- The state behind the step.
  abbrev state_after : List Send → Result ℕ → State
  state_after new begun = (end_step s step rounds new begun).0

  -- The rest of the run behind the first half of the step.
  rest_of : List Send × Result ℕ → State × Result Bool
  rest_of begun =
      let this = end_step s step rounds begun.0 begun.1 in
      proceed this.0 this.1 (run_steps outside this.0 steps)

  rest_of-IsInOrder :
      (command : Option Value) (begun : List Send × Result ℕ)
      → Begun s.sequence command begun
      → IsInOrder s (with_command command (commands_of steps)) (rest_of begun)
  unfolding rest_of end_step proceed
  rest_of-IsInOrder command begun waits =
      let t = state_after [] (ok s.sequence) in
      let r = run_steps outside t steps in
      proceed-IsInOrder s t _ [] _ r refl refl (waited-IsInOrder s t _ r refl refl (later t))
  rest_of-IsInOrder command begun (refuses {e = e}) =
      stopped-IsInOrder s (state_after [] (err e)) [] _ (err e) err≢ok refl refl
  rest_of-IsInOrder command begun (delivers x number name) =
      let t = state_after (x ∷ []) (ok (s.sequence + 1)) in
      let r = run_steps outside t steps in
      subst (λ v. IsInOrder s (v ∷ commands_of steps) (rest_of (x ∷ [], ok (s.sequence + 1))))
        (sym name)
        (proceed-IsInOrder s t _ (x ∷ []) _ r refl (one_number x _ number)
          (sent-IsInOrder s t x _ r refl refl number (later t)))
  rest_of-IsInOrder command begun (fails x {e = e} number) =
      stopped-IsInOrder s (state_after (x ∷ []) (err e)) (x ∷ []) _ (err e) err≢ok refl
        (one_number x _ number)

-- A run of the steps from a state numbers its commands one by one from the state's number, and a
-- run that passes has sent the commands of all steps in their order.
pub run_steps-IsInOrder :
    (outside : Outside) (s : State) (steps : List (Fields × List Round))
    → IsInOrder s (commands_of steps) (run_steps outside s steps)
unfolding run_steps run_step begin_step proceed rest_of
run_steps-IsInOrder outside s [] = ([], sym (append-nil s.sends), refl, λ h. refl)
run_steps-IsInOrder outside s ((step, rounds) ∷ steps) =
    rest_of-IsInOrder outside s step rounds steps (λ t. run_steps-IsInOrder outside t steps) _ _
      (begin_with-Begun outside s.sequence step (given (codes "command") step))
