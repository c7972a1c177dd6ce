-- ===== src/Assistant/Audited.antt =====
-- tools/assurance_assistant.py: how many audit records a run leaves.
use astra_sim_fsw.Base.{
  ℕ, Bool, ◌&&◌, List, [], ◌∷◌, ◌++◌, ◌+◌, ◌≡◌, inl, inr, refl, ap, ◌∙◌, arith, Option, Text, codes,
  text_eq, Result, ok, err, Exception, value_error, key_error, runtime_error, os_error,
  struct_error, attribute_error, type_error, assertion_error, overflow_error, keyboard_interrupt,
  ◌⊎◌, Result-cases, Bool-cases, Option-cases,
}
use astra_sim_fsw.Base.Int.{ℤ, pos}
use astra_sim_fsw.Base.Json.{Value, Fields}
use astra_sim_fsw.Assistant.{World, Decision, Policy}
use astra_sim_fsw.Assistant.Run.{
  Audit, Effect, reads, runs, audits, execute_decision, attempt, finish, respond, loaded, answer,
  main,
}

-- How many audit records a run writes.
abbrev pub audit_count : List Effect → ℕ
audit_count [] = 0
audit_count (audits audit ∷ effects) = 1 + audit_count effects
audit_count (reads path ∷ effects) = audit_count effects
audit_count (runs command ∷ effects) = audit_count effects

execute_decision-audit_count :
    (w : World) (decision : Decision) → audit_count (execute_decision w decision).0 ≡ 0
unfolding execute_decision
execute_decision-audit_count w decision = elim (Bool-cases decision.allowed) [
  | inr refused ↦ rw refused refl
  | inl allowed ↦ elim (Bool-cases (text_eq decision.action (codes "read"))) [
    | inr other ↦ elim (Bool-cases (text_eq decision.action (codes "run"))) [
      | inl run ↦ rw (allowed, other, run) refl
      | inr neither ↦ rw (allowed, other, neither) refl
    ]
    | inl read ↦ elim (Option-cases decision.resolved_path) [
      | inl no_path ↦ rw (execute_decision, allowed, read, no_path) refl
      | inr (path, found) ↦ rw (execute_decision, allowed, read, found) refl
    ]
  ]
]

attempt-audit_count :
    (w : World) (execute : Bool) (decision : Decision)
    → audit_count (attempt w execute decision).0 ≡ 0
unfolding attempt
attempt-audit_count w execute decision = elim (Bool-cases (execute && decision.allowed)) [
  | inl busy ↦ rw busy (execute_decision-audit_count w decision)
  | inr idle ↦ rw idle refl
]

audit_count-append :
    (es : List Effect) (audit : Audit)
    → audit_count (es ++ (audits audit ∷ [])) ≡ audit_count es + 1
audit_count-append [] audit = refl
audit_count-append (audits a ∷ es) audit = omega (arith, audit_count-append es audit)
audit_count-append (reads p ∷ es) audit = audit_count-append es audit
audit_count-append (runs c ∷ es) audit = audit_count-append es audit

finish-audit_count :
    (execute : Bool) (request : Fields) (decision : Decision) (es : List Effect)
    (result : Result (Option ℤ × Text))
    → audit_count es ≡ 0
    → ((code : ℤ)
        → (finish execute request decision es result).1 ≡ ok code
        → audit_count (finish execute request decision es result).0 ≡ 1)
      × ((e : Exception)
          → (finish execute request decision es result).1 ≡ err e
          → audit_count (finish execute request decision es result).0 ≡ 0)
unfolding finish
finish-audit_count execute request decision es (err e) none_yet =
    ((λ code h. absurd (cc h)), (λ e h. none_yet))
finish-audit_count execute request decision es (ok (return_code, output)) none_yet =
    ((λ code h. audit_count-append es _ ∙ ap (λ n. n + 1) none_yet), (λ e h. absurd (cc h)))

respond-audit_count :
    (w : World) (execute : Bool) (request : Fields) (policy : Policy)
    → ((code : ℤ)
        → (respond w execute request policy).1 ≡ ok code
        → audit_count (respond w execute request policy).0 ≡ 1)
      × ((e : Exception)
          → (respond w execute request policy).1 ≡ err e
          → audit_count (respond w execute request policy).0 ≡ 0)
unfolding respond
respond-audit_count w execute request policy =
    finish-audit_count execute request _ _ _ (attempt-audit_count w execute _)

-- How `main` ends where loading or deciding raises: an `OSError` and a `ValueError` are caught.
abbrev pub Ends : Exception → Result ℤ → Type 0
Ends (os_error m) result = result ≡ ok (pos 2)
Ends (value_error m) result = result ≡ ok (pos 2)
Ends e result = result ≡ err e

-- What `main` leaves behind the loading and the decision: nothing where they raise, and else one
-- audit record exactly where the run ends with an exit code.
abbrev pub IsAudited : Result (Fields × Policy) → List Effect × Result ℤ → Type 0
IsAudited (err e) left = (left.0 ≡ []) × Ends e left.1
IsAudited (ok loaded) left =
    ((code : ℤ) × (left.1 ≡ ok code) × (audit_count left.0 ≡ 1))
    ⊎ ((e : Exception) × (left.1 ≡ err e) × (audit_count left.0 ≡ 0))

respond-IsAudited :
    (w : World) (execute : Bool) (request : Fields) (policy : Policy)
    → IsAudited (ok (request, policy)) (respond w execute request policy)
respond-IsAudited w execute request policy =
    let (once, never) = respond-audit_count w execute request policy in
    elim (Result-cases (respond w execute request policy).1) [
      | inl (code, h) ↦ inl (code, h, once code h)
      | inr (e, h) ↦ inr (e, h, never e h)
    ]

-- Where loading the request or the policy, or the decision, raises, `main` does nothing and ends
-- with exit code 2 for an `OSError` and a `ValueError`, and with the exception itself for another;
-- otherwise it leaves exactly one audit record when it ends with an exit code, and none when an
-- exception ends it.
pub main-IsAudited :
    (w : World) (execute : Bool) (request_text : Result Value) (policy_path : Text)
    (policy_text : Result Value)
    → IsAudited
        (loaded w request_text policy_path policy_text)
        (main w execute request_text policy_path policy_text)
unfolding main answer
main-IsAudited w execute request_text policy_path policy_text =
    go (loaded w request_text policy_path policy_text)
  where
    go : (l : Result (Fields × Policy)) → IsAudited l (answer w execute l)
    go (ok (request, policy)) = respond-IsAudited w execute request policy
    go (err (value_error t)) = (refl, refl)
    go (err (key_error t)) = (refl, refl)
    go (err (runtime_error t)) = (refl, refl)
    go (err (os_error t)) = (refl, refl)
    go (err struct_error) = (refl, refl)
    go (err attribute_error) = (refl, refl)
    go (err type_error) = (refl, refl)
    go (err assertion_error) = (refl, refl)
    go (err overflow_error) = (refl, refl)
    go (err keyboard_interrupt) = (refl, refl)
