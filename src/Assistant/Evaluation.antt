-- ===== src/Assistant/Evaluation.antt =====
-- tools/run_assurance_assistant_eval.py: the frozen cases against the decisions on them.
use astra_sim_fsw.Base.{
  ℕ, ◌+◌, Bool, false, List, [], ◌∷◌, ◌++◌, Option, none, some, Text, codes, text_eq, Result, ok,
  err, Exception, value_error, os_error, attribute_error, ◌>>=◌, if◌then◌else◌, ltb, ◌==◌, length,
  same_bool,
}
use astra_sim_fsw.Base.Int.{pos}
use astra_sim_fsw.Base.Dict.{Dict, lookup, insert}
use astra_sim_fsw.Base.Json.{Value, bool, str, arr, obj, Fields, get, values, str_of, equals_int}
use astra_sim_fsw.Assistant.{World, Policy, Decision, load_policy}
use astra_sim_fsw.Assistant.Raising.{try_decide_request}

unfoldable pub checked_cases : Fields → List Value → Result (List Value)
unfolding equals_int
checked_cases payload cases =
    if ltb (length cases) 100
    then err (value_error (codes "evaluation set must contain at least 100 frozen cases"))
    else if elim (get (codes "case_count") payload) [
      | none ↦ false
      | some n ↦ equals_int (pos (length cases)) n
    ]
    then ok cases
    else err (value_error (codes "evaluation case_count does not match cases"))

unfoldable pub checked_payload : Text → Fields → Result (List Value)
unfolding checked_cases
checked_payload path payload =
    if elim (get (codes "schema") payload) [
      | some (str s) ↦ text_eq s (codes "astra-os.assurance-assistant-eval.v1")
      | _ ↦ false
    ]
    then elim (get (codes "cases") payload) [
      | some (arr cases) ↦ checked_cases payload (values cases)
      | _ ↦ err (value_error (codes "evaluation cases must be a list"))
    ]
    else err (value_error (codes "unexpected evaluation schema in " ++ path))

unreadable : Text → Text → Exception
unreadable path m =
    value_error (codes "unable to read evaluation set " ++ (path ++ (codes ": " ++ m)))

-- `load_evaluation`, from what reading and parsing the file gives.
unfoldable pub load_evaluation : Text → Result Value → Result (List Value)
unfolding checked_payload unreadable
load_evaluation path (err (os_error m)) = err (unreadable path m)
load_evaluation path (err (value_error m)) = err (unreadable path m)
load_evaluation path (err e) = err e
load_evaluation path (ok (obj payload)) = checked_payload path payload
load_evaluation path (ok _) = err attribute_error

pub record CaseResult : Type 0 where
  pub case_id : Text
  pub category : Text
  pub request : Fields
  pub expected_allowed : Bool
  pub actual_allowed : Bool
  pub passed : Bool
  pub reason : Text

abbrev pub Counter : Type 0
Counter = Dict ℕ

abbrev pub or_zero : Option ℕ → ℕ
or_zero none = 0
or_zero (some n) = n

-- `counts[key]`
unfoldable pub count : Text → Counter → ℕ
count key counts = or_zero (lookup key counts)

-- `counts[key] += 1`
unfoldable pub count_up : Text → Counter → Counter
count_up key counts = insert key (count key counts + 1) counts

unfoldable pub category_key : Text → Text → Text
category_key category suffix = codes "category:" ++ (category ++ suffix)

-- The counts after one case.
unfoldable pub tally : Text → Bool → Counter → Counter
unfolding category_key
tally category passed counts =
    let outcome = if passed then codes "passed" else codes "failed" in
    let counted = count_up (category_key category (codes ":total")) (count_up outcome counts) in
    if passed then count_up (category_key category (codes ":passed")) counted else counted

unfoldable pub text_or : World → Text → Text → Fields → Text
text_or w key default case = elim (get key case) [ none ↦ default | some v ↦ str_of w.repr v ]

invalid_case : World → Fields → Exception
invalid_case w case = value_error (codes "invalid evaluation case: " ++ w.repr (obj case))

unfoldable pub case_result : World → Fields → Fields → Bool → Decision → CaseResult
unfolding text_or
case_result w case request expected decision = record {
  case_id = text_or w (codes "id") [] case;
  category = text_or w (codes "category") (codes "uncategorized") case;
  request = request;
  expected_allowed = expected;
  actual_allowed = decision.allowed;
  passed = same_bool decision.allowed expected;
  reason = decision.reason;
}

-- The result of a case, from its request and its expected decision.
unfoldable pub evaluate_fields :
    World → Policy → Fields → Option Value → Option Value → Result CaseResult
unfolding text_or invalid_case case_result
evaluate_fields w policy case (some (obj request)) (some (bool expected)) =
    if text_eq (text_or w (codes "id") [] case) []
    then err (invalid_case w case)
    else try_decide_request w request policy >>= λ decision.
        ok (case_result w case request expected decision)
evaluate_fields w policy case _ _ = err (invalid_case w case)

-- The result of one case, or an exception where the case is malformed.
unfoldable pub evaluate_case : World → Policy → Value → Result CaseResult
evaluate_case w policy (obj case) =
    evaluate_fields w policy case (get (codes "request") case) (get (codes "expected_allowed") case)
evaluate_case w policy _ = err (value_error (codes "each evaluation case must be an object"))

-- The loop of `evaluate`, from the counts so far.
unfoldable pub evaluate_from :
    World → Policy → Counter → List Value → Result (List CaseResult × Counter)
evaluate_from w policy counts [] = ok ([], counts)
evaluate_from w policy counts (raw_case ∷ cases) = do
  result ← evaluate_case w policy raw_case
  (results, final) ← evaluate_from w policy (tally result.category result.passed counts) cases
  ok (result ∷ results, final)

unfoldable pub evaluate : World → Policy → List Value → Result (List CaseResult × Counter)
evaluate w policy cases = evaluate_from w policy [] cases

-- The numbers of the report, and the exit code of `main`.
pub record Summary : Type 0 where
  pub total : ℕ
  pub passed : ℕ
  pub failed : ℕ
  pub result : Text

unfoldable pub write_json : List CaseResult → Counter → Summary
write_json results counts = record {
  total = length results;
  passed = count (codes "passed") counts;
  failed = count (codes "failed") counts;
  result = if count (codes "failed") counts == 0 then codes "PASS" else codes "FAIL";
}

-- `main`: the reports, and the exit code.
unfoldable pub main :
    World → Text → Result Value → Text → Result Value → Result (Option Summary × ℕ)
main w policy_path policy_text evaluation_path evaluation_text =
    elim (do
      policy ← load_policy w.repr policy_path policy_text
      cases ← load_evaluation evaluation_path evaluation_text
      evaluate w policy cases) [
        | ok (results, counts) ↦
            ok (
              some (write_json results counts),
              if count (codes "failed") counts == 0 then 0 else 1,
            )
        | err (os_error m) ↦ ok (none, 1)
        | err (value_error m) ↦ ok (none, 1)
        | err e ↦ err e
      ]
