-- ===== src/Assistant/Run.antt =====
-- The run of a request: its execution, its audit record and its exit code.
use astra_sim_fsw.Base.{
  ℕ, Bool, ◌&&◌, List, [], ◌∷◌, ◌++◌, Option, none, some, Text, codes, text_eq, Result, ok, err,
  value_error, os_error, assertion_error, ◌>>=◌, if◌then◌else◌, length, take, ltb,
}
use astra_sim_fsw.Base.Int.{ℤ, pos}
use astra_sim_fsw.Base.Json.{Value, obj, Fields}
use astra_sim_fsw.Assistant.{FilePath, World, Decision, Policy, load_policy, decide_request}
use astra_sim_fsw.Assistant.Raising.{try_decide_request}

-- A line of the audit log, without its time.
pub record Audit : Type 0 where
  pub request : Fields
  pub decision : Decision
  pub executed : Bool
  pub return_code : Option ℤ

-- What a run does outside of the program.
pub data Effect : Type 0 where
  reads : FilePath → Effect
  runs : List Text → Effect
  audits : Audit → Effect

abbrev pub max_read_bytes : ℕ
max_read_bytes = 65536

truncation_mark : List ℕ
truncation_mark = 10 ∷ codes "[TRUNCATED BY ASSURANCE ASSISTANT]" ++ (10 ∷ [])

-- The bytes that an approved read shows.
unfoldable pub shown_bytes : List ℕ → List ℕ
unfolding truncation_mark
shown_bytes content =
    if ltb max_read_bytes (length content)
    then take max_read_bytes content ++ truncation_mark
    else content ++ []

-- `execute_decision`: what it does, and its return code and output, or the exception it raises.
unfoldable pub execute_decision : World → Decision → List Effect × Result (ℤ × Text)
execute_decision w decision =
    if decision.allowed
    then if text_eq decision.action (codes "read")
      then elim decision.resolved_path [
        | none ↦ ([], err assertion_error)
        | some path ↦ (
          reads path ∷ [],
          w.read_bytes path >>= λ content. ok (pos 0, w.decode_utf8 (shown_bytes content)),
        )
      ]
      else if text_eq decision.action (codes "run")
      then (runs decision.command ∷ [], w.run_process decision.command)
      else ([], ok (pos 2, codes "Unsupported approved action"))
    else ([], ok (pos 2, decision.reason))

-- `parse_request`, from what `json.loads` gives.
unfoldable pub parse_request : Result Value → Result Fields
parse_request (err (value_error m)) = err (value_error (codes "request must be valid JSON: " ++ m))
parse_request (err e) = err e
parse_request (ok (obj request)) = ok request
parse_request (ok _) = err (value_error (codes "request JSON must be an object"))

-- The return code of the execution that `main` keeps, where an `OSError` counts as a failure.
unfoldable pub caught : Result (ℤ × Text) → Result (Option ℤ × Text)
caught (ok (code, output)) = ok (some code, output)
caught (err (os_error m)) = ok (some (pos 1), codes "ERROR: " ++ m)
caught (err e) = err e

-- The effects of the execution, if there is one, and the return code and output.
unfoldable pub attempt : World → Bool → Decision → List Effect × Result (Option ℤ × Text)
attempt w execute decision =
    if execute && decision.allowed
    then ((execute_decision w decision).0, caught (execute_decision w decision).1)
    else ([], ok (none, []))

unfoldable pub exit_code : Bool → Decision → Option ℤ → ℤ
exit_code execute decision return_code =
    if decision.allowed
    then if execute then elim return_code [ none ↦ pos 0 | some code ↦ code ] else pos 0
    else pos 2

-- `append_audit`, where the log can be written, and the exit code.
unfoldable pub finish :
    Bool → Fields → Decision → List Effect → Result (Option ℤ × Text) → List Effect × Result ℤ
finish execute request decision effects (err e) = (effects, err e)
finish execute request decision effects (ok (return_code, output)) =
    let audit : Audit = record {
      request = request;
      decision = decision;
      executed = execute && decision.allowed;
      return_code = return_code;
    } in
    (effects ++ (audits audit ∷ []), ok (exit_code execute decision return_code))

unfoldable pub respond : World → Bool → Fields → Policy → List Effect × Result ℤ
respond w execute request policy =
    let decision = decide_request w request policy in
    let attempted = attempt w execute decision in
    finish execute request decision attempted.0 attempted.1

-- The `try` of `main`: the request and the policy, on which a decision was made.
unfoldable pub loaded : World → Result Value → Text → Result Value → Result (Fields × Policy)
loaded w request_text policy_path policy_text = do
  request ← parse_request request_text
  policy ← load_policy w.repr policy_path policy_text
  decision ← try_decide_request w request policy
  ok (request, policy)

-- Behind the `try`: its errors end the program before anything is done.
unfoldable pub answer : World → Bool → Result (Fields × Policy) → List Effect × Result ℤ
answer w execute (ok (request, policy)) = respond w execute request policy
answer w execute (err (os_error m)) = ([], ok (pos 2))
answer w execute (err (value_error m)) = ([], ok (pos 2))
answer w execute (err e) = ([], err e)

-- `main`
unfoldable pub main : World → Bool → Result Value → Text → Result Value → List Effect × Result ℤ
unfolding loaded answer
main w execute request_text policy_path policy_text =
    answer w execute (loaded w request_text policy_path policy_text)
