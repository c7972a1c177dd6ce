-- ===== src/Assistant/Evaluated.antt =====
-- What the counts of an evaluation say of the decisions.
use astra_sim_fsw.Base.{
  suc, ◌+◌, Bool, true, false, not, List, [], ◌∷◌, ◌++◌, ◌≡◌, ◌↔◌, inl, inr, refl, sym, ap, ◌∙◌,
  arith, Option, some, Text, codes, text_eq, text_eq_iff, ok, ok-injective, subst, >>=-ok,
  if◌then◌else◌, length, All, count_if, Bool-cases, same_bool, same_bool_iff,
}
use astra_sim_fsw.Base.Dict.{lookup, lookup-insert}
use astra_sim_fsw.Base.Json.{Value, bool, obj, Fields, get}
use astra_sim_fsw.Assistant.{World, Policy, decide_request}
use astra_sim_fsw.Assistant.Raising.{try_decide_request, try_decide_request-decision}
use astra_sim_fsw.Assistant.Evaluation.{
  CaseResult, Counter, count, count_up, tally, category_key, evaluate_case, evaluate_from, evaluate,
  evaluate_fields, case_result, or_zero, text_or,
}

count-count_up :
    (k j : Text) (counts : Counter)
    → count j (count_up k counts) ≡ count j counts + (if text_eq k j then 1 else 0)
unfolding count count_up
count-count_up k j counts =
    let e = lookup-insert k j (or_zero (lookup k counts) + 1) counts in
    elim (Bool-cases (text_eq k j)) [
      | inl same ↦
          let k_is_j : k ≡ j = (text_eq_iff k j).0 same in
          rw (e, same) (ap (λ i. or_zero (lookup i counts) + 1) k_is_j)
      | inr other ↦ rw (e, other) (omega arith)
    ]

-- The count of a category leaves the two outcomes alone.
outcomes-category_key :
    (category suffix : Text) (counts : Counter)
    → (count (codes "passed") (count_up (category_key category suffix) counts)
        ≡ count (codes "passed") counts)
      × (count (codes "failed") (count_up (category_key category suffix) counts)
          ≡ count (codes "failed") counts)
unfolding codes text_eq category_key
outcomes-category_key category suffix counts =
    let key = codes "category:" ++ (category ++ suffix) in
    (
      rw (count-count_up key (codes "passed") counts) (omega arith),
      rw (count-count_up key (codes "failed") counts) (omega arith),
    )

-- A case counts once as passed or failed, whatever its category.
tally-outcome :
    (category : Text) (passed : Bool) (counts : Counter)
    → (count (codes "passed") (tally category passed counts)
        ≡ count (codes "passed") counts + (if passed then 1 else 0))
      × (count (codes "failed") (tally category passed counts)
          ≡ count (codes "failed") counts + (if not passed then 1 else 0))
unfolding tally codes text_eq
tally-outcome category true counts =
    let (p1, f1) =
      outcomes-category_key category (codes ":passed")
        (count_up (category_key category (codes ":total")) (count_up (codes "passed") counts)) in
    let (p2, f2) =
      outcomes-category_key category (codes ":total") (count_up (codes "passed") counts) in
    (
      p1 ∙ p2 ∙ count-count_up (codes "passed") (codes "passed") counts,
      f1 ∙ f2 ∙ count-count_up (codes "passed") (codes "failed") counts,
    )
tally-outcome category false counts =
    let (p2, f2) =
      outcomes-category_key category (codes ":total") (count_up (codes "failed") counts) in
    (
      p2 ∙ count-count_up (codes "failed") (codes "passed") counts,
      f2 ∙ count-count_up (codes "failed") (codes "failed") counts,
    )

-- The result of a case has its request and its expectation, holds the decision on the request, and
-- passes when that is the expected one.
abbrev pub IsDecided : World → Policy → Value → CaseResult → Type 0
IsDecided w policy case r =
    (fields : Fields) × (case ≡ obj fields)
    × (get (codes "request") fields ≡ some (obj r.request))
    × (get (codes "expected_allowed") fields ≡ some (bool r.expected_allowed))
    × (r.actual_allowed ≡ (decide_request w r.request policy).allowed)
    × (r.passed ≡ same_bool r.actual_allowed r.expected_allowed)

-- One result for each case, in their order.
abbrev pub AreDecided : World → Policy → List Value → List CaseResult → Type 0
AreDecided w policy [] [] = Unit
AreDecided w policy (case ∷ cases) (r ∷ rs) =
    IsDecided w policy case r × AreDecided w policy cases rs
AreDecided w policy _ _ = ⊥

evaluate_fields-IsDecided :
    (w : World) (policy : Policy) (case : Fields) (request expected : Option Value) {r : CaseResult}
    → get (codes "request") case ≡ request
    → get (codes "expected_allowed") case ≡ expected
    → evaluate_fields w policy case request expected ≡ ok r
    → IsDecided w policy (obj case) r
unfolding evaluate_fields case_result
evaluate_fields-IsDecided w policy case (some (obj request)) (some (bool expected)) e f h =
    elim (Bool-cases (text_eq (text_or w (codes "id") [] case) [])) [
      | inl empty ↦ absurd (cc (rw empty at h))
      | inr named ↦
          let (decision, decided, made) =
            >>=-ok (try_decide_request w request policy)
              (λ decision. ok (case_result w case request expected decision)) (rw named at h) in
          subst (IsDecided w policy (obj case)) (ok-injective made) (
            case,
            refl,
            e,
            f,
            ap (λ d. d.allowed) (try_decide_request-decision w request policy decided),
            refl,
          )
    ]
evaluate_fields-IsDecided w policy case _ _ e f h = absurd (cc h)

evaluate_case-IsDecided :
    (w : World) (policy : Policy) (case : Value) {r : CaseResult}
    → evaluate_case w policy case ≡ ok r
    → IsDecided w policy case r
unfolding evaluate_case
evaluate_case-IsDecided w policy (obj case) h =
    evaluate_fields-IsDecided w policy case _ _ refl refl h
evaluate_case-IsDecided w policy _ h = absurd (cc h)

-- The counts at the end of the loop, and the decisions behind the results.
abbrev pub IsEvaluated : World → Policy → List Value → Counter → List CaseResult → Counter → Type 0
IsEvaluated w policy cases counts results final =
    (length results ≡ length cases)
    × (count (codes "passed") final
        ≡ count (codes "passed") counts + count_if (λ r. r.passed) results)
    × (count (codes "failed") final
        ≡ count (codes "failed") counts + count_if (λ r. not r.passed) results)
    × AreDecided w policy cases results

evaluate_from-IsEvaluated :
    (w : World) (policy : Policy) (counts : Counter) (cases : List Value)
    (results : List CaseResult) (final : Counter)
    → evaluate_from w policy counts cases ≡ ok (results, final)
    → IsEvaluated w policy cases counts results final
unfolding evaluate_from
evaluate_from-IsEvaluated w policy counts [] results final h =
    subst (λ p. IsEvaluated w policy [] counts p.0 p.1) (ok-injective h)
      (refl, omega arith, omega arith, tt)
evaluate_from-IsEvaluated w policy counts (case ∷ cases) results final h =
    let (r, decided, rest) = >>=-ok (evaluate_case w policy case) _ h in
    let ((rs, end), later, e) =
      >>=-ok (evaluate_from w policy (tally r.category r.passed counts) cases) _ rest in
    let (len, p, f, all) =
      evaluate_from-IsEvaluated w policy (tally r.category r.passed counts) cases rs end later in
    let (tp, tf) = tally-outcome r.category r.passed counts in
    subst (λ q. IsEvaluated w policy (case ∷ cases) counts q.0 q.1) (ok-injective e)
      (ap suc len, omega arith, omega arith, (evaluate_case-IsDecided w policy case decided, all))

-- An evaluation that raises nothing has one result for each case; its counts of passed and failed
-- cases are those of its results; and each result has the request and the expectation of its case
-- and holds the decision on that request.
pub evaluate-IsEvaluated :
    (w : World) (policy : Policy) (cases : List Value) (results : List CaseResult)
    (counts : Counter)
    → evaluate w policy cases ≡ ok (results, counts)
    → (length results ≡ length cases)
      × (count (codes "passed") counts ≡ count_if (λ r. r.passed) results)
      × (count (codes "failed") counts ≡ count_if (λ r. not r.passed) results)
      × AreDecided w policy cases results
unfolding evaluate count lookup
evaluate-IsEvaluated w policy cases results counts h =
    let (len, p, f, all) = evaluate_from-IsEvaluated w policy [] cases results counts h in
    (len, omega (arith, p), omega (arith, f), all)

-- The decision on the case's request is the one that the case expects.
abbrev pub AsExpected : World → Policy → Value → Type 0
AsExpected w policy case =
    (fields : Fields) × (request : Fields) × (case ≡ obj fields)
    × (get (codes "request") fields ≡ some (obj request))
    × (get (codes "expected_allowed") fields
        ≡ some (bool (decide_request w request policy).allowed))

obj_injective : {d e : Fields} → obj d ≡ obj e → d ≡ e
obj_injective h = cc h

IsDecided-AsExpected :
    (w : World) (policy : Policy) (case : Value) (r : CaseResult)
    → IsDecided w policy case r
    → (r.passed ≡ true) ↔ AsExpected w policy case
IsDecided-AsExpected w policy case r (fields, is_case, asked, expects, actual, passed) =
    let same = same_bool_iff r.actual_allowed r.expected_allowed in
    (
      λ did.
          let agrees : r.actual_allowed ≡ r.expected_allowed = same.0 (sym passed ∙ did) in
          (
            fields,
            r.request,
            is_case,
            asked,
            expects ∙ ap (λ b. some (bool b)) (sym agrees ∙ actual),
          ),
      λ as_expected.
          let (fields', request, is_case', asked', expects') = as_expected in
          let same_fields = obj_injective (sym is_case ∙ is_case') in
          let asked_in = ap (get (codes "request")) same_fields in
          let expects_in = ap (get (codes "expected_allowed")) same_fields in
          let same_request : r.request ≡ request = cc (asked, asked', asked_in) in
          let expected : r.expected_allowed ≡ (decide_request w request policy).allowed =
            cc (expects, expects', expects_in) in
          passed
          ∙ same.1
              (actual ∙ ap (λ q. (decide_request w q policy).allowed) same_request ∙ sym expected),
    )

no_failure_iff :
    (w : World) (policy : Policy) (cases : List Value) (results : List CaseResult)
    → AreDecided w policy cases results
    → (count_if (λ r. not r.passed) results ≡ 0) ↔ All (AsExpected w policy) cases
no_failure_iff w policy [] [] all = ((λ h. tt), (λ h. refl))
no_failure_iff w policy (case ∷ cases) (r ∷ rs) (one, all) =
    let (there, back) = no_failure_iff w policy cases rs all in
    let (meets, met) = IsDecided-AsExpected w policy case r one in
    elim (Bool-cases r.passed) [
      | inl did ↦ (
        (λ z. (meets did, there (omega (arith, rw did at z)))),
        (λ d. rw did (omega (arith, back d.1))),
      )
      | inr did_not ↦
          ((λ z. absurd (omega (arith, rw did_not at z))), (λ d. absurd (cc (did_not, met d.0))))
    ]
no_failure_iff w policy [] (r ∷ rs) all = absurd all
no_failure_iff w policy (case ∷ cases) [] all = absurd all

-- An evaluation that raises nothing counts no failed case exactly when for each case the decision
-- on its request is the one that the case expects.
pub evaluate-failed_iff :
    (w : World) (policy : Policy) (cases : List Value) (results : List CaseResult)
    (counts : Counter)
    → evaluate w policy cases ≡ ok (results, counts)
    → (count (codes "failed") counts ≡ 0) ↔ All (AsExpected w policy) cases
evaluate-failed_iff w policy cases results counts h =
    let (len, p, f, all) = evaluate-IsEvaluated w policy cases results counts h in
    let (there, back) = no_failure_iff w policy cases results all in
    ((λ z. there (sym f ∙ z)), (λ d. f ∙ back d))
