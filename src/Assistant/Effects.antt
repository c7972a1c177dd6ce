-- ===== src/Assistant/Effects.antt =====
-- What a run does outside of the program: no effect without permission, and the audit record.
use astra_sim_fsw.Base.{
  ℕ, Bool, true, ◌&&◌, List, [], ◌∷◌, ◌≡◌, inl, inr, refl, arith, Option, some, Text, codes,
  text_eq, Result, ok, err, value_error, key_error, runtime_error, os_error, struct_error,
  attribute_error, type_error, assertion_error, overflow_error, keyboard_interrupt, ◌>>=◌, ◌⊎◌,
  none, false, Result-cases, Bool-cases, All, All-append,
}
use astra_sim_fsw.Base.Int.{ℤ, pos}
use astra_sim_fsw.Base.Dict.{lookup}
use astra_sim_fsw.Base.Json.{Value, Fields}
use astra_sim_fsw.Assistant.{
  FilePath, World, Decision, Policy, resolved_target, command_of, decide, text_field,
  decide_request,
}
use astra_sim_fsw.Assistant.Reads.{ReadIsApproved}
use astra_sim_fsw.Assistant.Permitted.{
  IsPermitted, decide-IsPermitted, ReadIsApproved-decision, ToolIsListed-decision,
}
use astra_sim_fsw.Assistant.Run.{
  Audit, Effect, reads, runs, audits, shown_bytes, caught, execute_decision, attempt, finish,
  respond,
}

-- The policy allows the effect on an action and a target: a read of the file that the target
-- resolves to, or a run of the command that the target's tool is listed with.
abbrev pub IsGranted : World → Text → Text → Policy → Effect → Type 0
IsGranted w action target policy (reads path) =
    (action ≡ codes "read") × ReadIsApproved w target policy × (path ≡ resolved_target w target)
IsGranted w action target policy (runs command) =
    (action ≡ codes "run")
    × ((v : Value) × (lookup target policy.allowlisted_tools ≡ some v)
        × (command_of v ≡ some command))
IsGranted w action target policy (audits audit) = ⊥

execute_decision-IsGranted :
    (w : World) (action target : Text) (policy : Policy)
    → IsPermitted w action target policy
    → All (IsGranted w action target policy) (execute_decision w (decide w action target policy)).0
unfolding execute_decision codes text_eq
execute_decision-IsGranted w action target policy (named, free, inl (read, r)) =
    rw (ReadIsApproved-decision w action target policy free read r) ((read, r, refl), tt)
execute_decision-IsGranted w action target policy (named, free, inr (run, (v, found, (c, valid)))) =
    rw (ToolIsListed-decision w action target policy v c free run found valid)
      ((run, (v, found, valid)), tt)

-- The return code that is recorded for a call: the one that it gave, or 1 for an `OSError`.
abbrev pub Recorded : Result ℤ → Option ℤ → Type 0
Recorded given code =
    ((c : ℤ) × (given ≡ ok c) × (code ≡ some c))
    ⊎ ((m : Text) × (given ≡ err (os_error m)) × (code ≡ some (pos 1)))

-- What the read of a file gives for a return code: 0, where the file can be read.
abbrev pub read_code : World → FilePath → Result ℤ
read_code w path = w.read_bytes path >>= λ content. ok (pos 0)

abbrev pub process_code : World → List Text → Result ℤ
process_code w command = w.run_process command >>= λ ended. ok ended.0

-- The return code that is recorded of a run: none where nothing was executed, and else that of the
-- read or of the process.
abbrev pub IsCode : World → Bool → Decision → Option ℤ → Type 0
IsCode w false decision code = code ≡ none
IsCode w true decision code =
    ((path : FilePath) × (decision.resolved_path ≡ some path)
      × (decision.action ≡ codes "read")
      × Recorded (read_code w path) code)
    ⊎ ((decision.action ≡ codes "run") × Recorded (process_code w decision.command) code)

-- The audit record is true to the run: it holds the request, the decision on it, whether the
-- decision was executed, and the return code.
abbrev pub IsTrue : World → Bool → Fields → Policy → Audit → Type 0
IsTrue w execute request policy audit =
    (audit.request ≡ request)
    × (audit.decision ≡ decide_request w request policy)
    × (audit.executed ≡ (execute && (decide_request w request policy).allowed))
    × IsCode w audit.executed audit.decision audit.return_code

-- What a run may do: record itself truly, and, where it is asked to execute, what is granted.
abbrev pub IsAuthorized : World → Bool → Fields → Policy → Effect → Type 0
IsAuthorized w execute request policy (audits audit) = IsTrue w execute request policy audit
IsAuthorized w execute request policy effect =
    (execute ≡ true)
    × IsGranted w (text_field w (codes "action") request) (text_field w (codes "target") request)
        policy effect

granted-IsAuthorized :
    (w : World) (execute : Bool) (request : Fields) (policy : Policy) (effects : List Effect)
    → execute ≡ true
    → All
        (IsGranted w
          (text_field w (codes "action") request)
          (text_field w (codes "target") request)
          policy)
        effects
    → All (IsAuthorized w execute request policy) effects
granted-IsAuthorized w execute request policy [] asked gs = tt
granted-IsAuthorized w execute request policy (reads path ∷ effects) asked (g, gs) =
    ((asked, g), granted-IsAuthorized w execute request policy effects asked gs)
granted-IsAuthorized w execute request policy (runs command ∷ effects) asked (g, gs) =
    ((asked, g), granted-IsAuthorized w execute request policy effects asked gs)
granted-IsAuthorized w execute request policy (audits audit ∷ effects) asked (g, gs) = absurd g

caught-Recorded :
    (given : Result (ℤ × Text)) (code : Option ℤ) (output : Text)
    → caught given ≡ ok (code, output)
    → Recorded (given >>= λ ended. ok ended.0) code
unfolding caught
caught-Recorded (ok (c, text)) code output h = inl (c, refl, cc (h))
caught-Recorded (err (os_error m)) code output h = inr (m, refl, cc (h))
caught-Recorded (err (value_error t)) code output h = absurd (cc (h))
caught-Recorded (err (key_error t)) code output h = absurd (cc (h))
caught-Recorded (err (runtime_error t)) code output h = absurd (cc (h))
caught-Recorded (err struct_error) code output h = absurd (cc (h))
caught-Recorded (err attribute_error) code output h = absurd (cc (h))
caught-Recorded (err type_error) code output h = absurd (cc (h))
caught-Recorded (err assertion_error) code output h = absurd (cc (h))
caught-Recorded (err overflow_error) code output h = absurd (cc (h))
caught-Recorded (err keyboard_interrupt) code output h = absurd (cc (h))

read-Recorded :
    (w : World) (read : Result (List ℕ)) (code : Option ℤ) (output : Text)
    → caught (read >>= λ content. ok (pos 0, w.decode_utf8 (shown_bytes content)))
      ≡ ok (code, output)
    → Recorded (read >>= λ content. ok (pos 0)) code
read-Recorded w (ok content) code output h =
    caught-Recorded (ok (pos 0, w.decode_utf8 (shown_bytes content))) code output h
read-Recorded w (err e) code output h = caught-Recorded (err e) code output h

-- What `attempt` returns is the code of what the decision permits.
abbrev CodeOf : World → Bool → Decision → Result (Option ℤ × Text) → Type 0
CodeOf w busy decision (err e) = Unit
CodeOf w busy decision (ok (code, output)) = IsCode w busy decision code

caught-CodeOf :
    (w : World) (decision : Decision) (given : Result (ℤ × Text))
    → ((code : Option ℤ) (output : Text)
        → caught given ≡ ok (code, output)
        → IsCode w true decision code)
    → CodeOf w true decision (caught given)
caught-CodeOf w decision given f = elim (Result-cases (caught given)) [
  | inl ((code, output), e) ↦ rw e (f code output e)
  | inr (e, failed) ↦ rw failed tt
]

finish-IsAuthorized :
    (w : World) (execute : Bool) (request : Fields) (policy : Policy) (effects : List Effect)
    (result : Result (Option ℤ × Text))
    → All (IsAuthorized w execute request policy) effects
    → CodeOf w
        (execute && (decide_request w request policy).allowed)
        (decide_request w request policy)
        result
    → All
        (IsAuthorized w execute request policy)
        (finish execute request (decide_request w request policy) effects result).0
unfolding finish
finish-IsAuthorized w execute request policy effects (err e) all code = all
finish-IsAuthorized w execute request policy effects (ok (return_code, output)) all code =
    All-append _ effects _ all ((refl, refl, refl, code), tt)

abbrev read_decision : Text → FilePath → Decision
read_decision target path = record {
  allowed = true;
  action = codes "read";
  target = target;
  reason = codes "Read target is within an approved project source root";
  command = [];
  resolved_path = some path;
}

abbrev run_decision : Text → List Text → Decision
run_decision target command = record {
  allowed = true;
  action = codes "run";
  target = target;
  reason = codes "Verification tool exactly matches the allow-list";
  command = command;
  resolved_path = none;
}

execute_decision-CodeOf :
    (w : World) (action target : Text) (policy : Policy)
    → IsPermitted w action target policy
    → CodeOf w true
        (decide w action target policy)
        (caught (execute_decision w (decide w action target policy)).1)
unfolding execute_decision codes text_eq
execute_decision-CodeOf w action target policy (named, free, inl (read, r)) =
    let path = resolved_target w target in
    rw (ReadIsApproved-decision w action target policy free read r) (
      caught-CodeOf w (read_decision target path)
        (w.read_bytes path >>= λ content. ok (pos 0, w.decode_utf8 (shown_bytes content)))
        (λ code output kept.
          inl (path, refl, refl, read-Recorded w (w.read_bytes path) code output kept)))
execute_decision-CodeOf w action target policy (named, free, inr (run, (v, found, (c, valid)))) =
    rw (ToolIsListed-decision w action target policy v c free run found valid) (
      caught-CodeOf w (run_decision target c) (w.run_process c)
        (λ code output kept. inr (refl, caught-Recorded (w.run_process c) code output kept)))

attempt-IsAuthorized :
    (w : World) (execute : Bool) (request : Fields) (policy : Policy)
    → All
        (IsAuthorized w execute request policy)
        (attempt w execute (decide_request w request policy)).0
unfolding attempt decide_request
attempt-IsAuthorized w execute request policy =
    elim (Bool-cases (execute && (decide_request w request policy).allowed)) [
      | inr idle ↦ rw idle tt
      | inl busy ↦
          let asked : execute ≡ true = ground arith in
          let allowed : (decide_request w request policy).allowed ≡ true = ground arith in
          rw busy (
            granted-IsAuthorized w execute request policy _ asked
              (execute_decision-IsGranted w _ _ policy (decide-IsPermitted w _ _ policy allowed)))
    ]

attempt-CodeOf :
    (w : World) (execute : Bool) (request : Fields) (policy : Policy)
    → CodeOf w
        (execute && (decide_request w request policy).allowed)
        (decide_request w request policy)
        (attempt w execute (decide_request w request policy)).1
unfolding attempt decide_request
attempt-CodeOf w execute request policy =
    elim (Bool-cases (execute && (decide_request w request policy).allowed)) [
      | inr idle ↦ rw idle refl
      | inl busy ↦
          let allowed : (decide_request w request policy).allowed ≡ true = ground arith in
          rw busy (execute_decision-CodeOf w _ _ policy (decide-IsPermitted w _ _ policy allowed))
    ]

-- Whatever the request, the policy and the system: a run reads a file or starts a process only if
-- it is asked to execute, and then only the approved file that the target resolves to or the
-- command that the policy lists the target with. Its audit record holds the request, the decision,
-- whether it was executed, and the return code: none where nothing was executed, else 0 for a file
-- that was read, the code of the process, or 1 for an `OSError`.
pub respond-IsAuthorized :
    (w : World) (execute : Bool) (request : Fields) (policy : Policy)
    → All (IsAuthorized w execute request policy) (respond w execute request policy).0
unfolding respond
respond-IsAuthorized w execute request policy =
    finish-IsAuthorized w execute request policy _ _ (attempt-IsAuthorized w execute request policy)
      (attempt-CodeOf w execute request policy)
