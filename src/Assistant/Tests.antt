-- ===== src/Assistant/Tests.antt =====
-- The permission boundary at concrete requests.
use astra_sim_fsw.Base.{
  Bool, true, false, not, List, [], ◌∷◌, ◌≡◌, ◌↔◌, refl, none, some, ◌>>=◌, Text, codes, text_eq,
  starts_with, strip, lstrip_of, rstrip_of, strip_of, is_space, split, ok, err, value_error, length,
  All, count_if,
}
use astra_sim_fsw.Base.Int.{pos}
use astra_sim_fsw.Base.Dict.{lookup, insert}
use astra_sim_fsw.Base.Json.{Value, str, bool, obj, arr, Fields, end, field, nil, cons, get, str_of}
use astra_sim_fsw.Assistant.{
  FilePath, World, Policy, parse_path, is_absolute, is_relative_to, path_eq, join_path, find_root,
  resolved_target, resolve_approved_read_path, denied, texts, command_of, decide_read, decide_run,
  text_field, load_policy, decide, decide_request,
}
use astra_sim_fsw.Assistant.Permitted.{IsPermitted, decide_request_iff}
use astra_sim_fsw.Assistant.Run.{
  runs, execute_decision, parse_request, caught, attempt, finish, respond, loaded, answer, main,
}
use astra_sim_fsw.Assistant.Raising.{asks_to_read, read_raises, try_decide_request}
use astra_sim_fsw.Assistant.Effects.{IsAuthorized, respond-IsAuthorized}
use astra_sim_fsw.Assistant.Audited.{IsAudited, main-IsAudited}
use astra_sim_fsw.Assistant.Evaluation.{
  CaseResult, Counter, count, count_up, tally, category_key, text_or, evaluate_fields, case_result,
  evaluate_case, evaluate_from, evaluate,
}
use astra_sim_fsw.Assistant.Evaluated.{
  AreDecided, AsExpected, evaluate-IsEvaluated, evaluate-failed_iff,
}

abbrev root : FilePath
unfolding codes
root = codes "/" ∷ codes "repo" ∷ []

-- A system without links, where every path is a file and a process returns at once.
abbrev world : World
world = record {
  raises = λ p. none;
  resolve = λ p. p;
  is_file = λ p. true;
  read_bytes = λ p. ok (104 ∷ 105 ∷ []);
  run_process = λ c. err (value_error []);
  decode_utf8 = λ b. b;
  repr = λ v. [];
  repo_root = root;
}

abbrev policy : Policy
policy = record {
  approved_read_roots = codes "docs" ∷ [];
  allowlisted_tools = (codes "requirements", arr (cons (str (codes "python3")) nil)) ∷ [];
  explicitly_denied_actions = codes "write" ∷ [];
}

-- The object of which `policy` is loaded.
abbrev policy_text : Fields
policy_text = field (codes "schema") (str (codes "astra-os.assurance-assistant-policy.v1")) (
    field (codes "approved_read_roots") (arr (cons (str (codes "docs")) nil)) (
      field (codes "allowlisted_tools")
        (obj (field (codes "requirements") (arr (cons (str (codes "python3")) nil)) end))
        (field (codes "explicitly_denied_actions") (arr (cons (str (codes "write")) nil)) end)))

abbrev request_of : Text → Text → Fields
request_of action target =
    field (codes "action") (str action) (field (codes "target") (str target) end)

abbrev read_docs : Fields
read_docs = request_of (codes " read ") (codes "docs/a.md")

abbrev read_source : Fields
read_source = request_of (codes "read") (codes "fsw/main.cpp")

abbrev run_tool : Fields
run_tool = request_of (codes "run") (codes "requirements")

decisions :
    ((decide_request world read_docs policy).allowed ≡ true)
    × ((decide_request world read_source policy).allowed ≡ false)
    × ((decide_request world run_tool policy).allowed ≡ true)
unfolding decide_request decide decide_read decide_run text_field denied texts command_of find_root
    resolve_approved_read_path resolved_target join_path path_eq is_relative_to is_absolute
    parse_path codes text_eq starts_with strip strip_of lstrip_of rstrip_of is_space split lookup
    get str_of
decisions = (refl, refl, refl)

decide_request_iff_example :
    ((decide_request world read_docs policy).allowed ≡ true)
    ↔ IsPermitted world
        (text_field world (codes "action") read_docs)
        (text_field world (codes "target") read_docs)
        policy
decide_request_iff_example = decide_request_iff world read_docs policy

respond-IsAuthorized_example :
    All (IsAuthorized world true read_docs policy) (respond world true read_docs policy).0
respond-IsAuthorized_example = respond-IsAuthorized world true read_docs policy

-- The approved tool is started and its output does not decode: no record is left.
unrecorded :
    main world true (ok (obj run_tool)) [] (ok (obj policy_text))
    ≡ (runs (codes "python3" ∷ []) ∷ [], err (value_error []))
unfolding main loaded answer parse_request load_policy try_decide_request asks_to_read read_raises
    respond attempt caught finish execute_decision decide_request decide decide_read decide_run
    text_field denied texts command_of codes text_eq starts_with strip strip_of lstrip_of rstrip_of
    is_space lookup get str_of
unrecorded = refl

main-IsAudited_example :
    IsAudited
      (loaded world (ok (obj run_tool)) [] (ok (obj policy_text)))
      (main world true (ok (obj run_tool)) [] (ok (obj policy_text)))
main-IsAudited_example = main-IsAudited world true (ok (obj run_tool)) [] (ok (obj policy_text))

-- A path that raises ends the run before the audit, with exit code 2.
raised :
    answer world true (
      try_decide_request
        (record world { raises = λ p. some (value_error (codes "null byte")) })
        read_docs
        policy
      >>= λ decision. ok (read_docs, policy))
    ≡ ([], ok (pos 2))
unfolding answer try_decide_request asks_to_read read_raises text_field codes text_eq strip strip_of
    lstrip_of rstrip_of is_space get str_of
raised = refl

abbrev case_of : Text → Fields → Bool → Value
case_of name request expected = obj (
    field (codes "id") (str name) (
      field (codes "request") (obj request) (field (codes "expected_allowed") (bool expected) end)))

abbrev cases : List Value
cases = case_of (codes "one") read_docs true ∷ case_of (codes "two") read_source true ∷ []

abbrev result_of : Text → Fields → Bool → Text → CaseResult
result_of name request actual reason = record {
  case_id = name;
  category = codes "uncategorized";
  request = request;
  expected_allowed = true;
  actual_allowed = actual;
  passed = actual;
  reason = reason;
}

abbrev results : List CaseResult
results =
    result_of (codes "one") read_docs true
      (codes "Read target is within an approved project source root")
    ∷ result_of (codes "two") read_source false (codes "Path is outside approved project sources")
    ∷ []

abbrev counts : Counter
counts =
    (codes "passed", 1)
    ∷ (codes "category:uncategorized:total", 2)
    ∷ (codes "category:uncategorized:passed", 1)
    ∷ (codes "failed", 1)
    ∷ []

evaluated : evaluate world policy cases ≡ ok (results, counts)
unfolding evaluate evaluate_from evaluate_case evaluate_fields case_result try_decide_request
    asks_to_read read_raises tally count_up count category_key text_or insert decide_request decide
    decide_read decide_run text_field denied texts command_of find_root resolve_approved_read_path
    resolved_target join_path path_eq is_relative_to is_absolute parse_path codes text_eq
    starts_with strip strip_of lstrip_of rstrip_of is_space split lookup get str_of
evaluated = refl

evaluate-IsEvaluated_example :
    (length results ≡ length cases)
    × (count (codes "passed") counts ≡ count_if (λ r. r.passed) results)
    × (count (codes "failed") counts ≡ count_if (λ r. not r.passed) results)
    × AreDecided world policy cases results
evaluate-IsEvaluated_example = evaluate-IsEvaluated world policy cases results counts evaluated

evaluate-failed_iff_example :
    (count (codes "failed") counts ≡ 0) ↔ All (AsExpected world policy) cases
evaluate-failed_iff_example = evaluate-failed_iff world policy cases results counts evaluated
