-- ===== src/Assistant/Permitted.antt =====
-- What an allowed decision guarantees, and that nothing more is refused.
use astra_sim_fsw.Base.{
  true, false, List, [], ◌≡◌, ◌≢◌, ◌↔◌, ◌⊎◌, inl, inr, refl, sym, subst, none, some, Text, codes,
  text_eq, text_eq_iff, text_eq_refl, text_eq_ne, any, Bool-cases, Option-cases,
}
use astra_sim_fsw.Base.Dict.{lookup}
use astra_sim_fsw.Base.Json.{Value, Fields}
use astra_sim_fsw.Assistant.{
  World, Policy, resolved_target, command_of, denied, decide_read, decide_run, decide, text_field,
  decide_request,
}
use astra_sim_fsw.Assistant.Reads.{
  ReadIsApproved, decide_read-allowed, ReadIsApproved-allowed, resolve_approved-found,
}

-- The tool is allow-listed, with a command that is a list of texts.
abbrev pub ToolIsListed : Text → Policy → Type 0
ToolIsListed target policy =
    (v : Value) × (lookup target policy.allowlisted_tools ≡ some v)
    × ((command : List Text) × (command_of v ≡ some command))

decide_run-allowed :
    (target : Text) (policy : Policy)
    → (decide_run target policy).allowed ≡ true
    → ToolIsListed target policy
unfolding decide_run denied
decide_run-allowed target policy h = elim (Option-cases (lookup target policy.allowlisted_tools)) [
  | inl missing ↦ let e : false ≡ true = rw (decide_run, missing) at h in absurd (cc e)
  | inr (v, found) ↦ elim (Option-cases (command_of v)) [
    | inl invalid ↦ let e : false ≡ true = rw (decide_run, found, invalid) at h in absurd (cc e)
    | inr (command, valid) ↦ (v, found, (command, valid))
  ]
]

ToolIsListed-allowed :
    (target : Text) (policy : Policy)
    → ToolIsListed target policy
    → (decide_run target policy).allowed ≡ true
unfolding decide_run denied
ToolIsListed-allowed target policy (v, found, (command, valid)) = rw (decide_run, found, valid) refl

-- Nothing denies the action, and it is a read of an approved file or a run of a listed tool.
abbrev pub IsPermitted : World → Text → Text → Policy → Type 0
IsPermitted w action target policy =
    (action ≢ [])
    × (any (λ a. text_eq a action) policy.explicitly_denied_actions ≡ false)
    × (((action ≡ codes "read") × ReadIsApproved w target policy)
        ⊎ ((action ≡ codes "run") × ToolIsListed target policy))

pub decide-IsPermitted :
    (w : World) (action target : Text) (policy : Policy)
    → (decide w action target policy).allowed ≡ true
    → IsPermitted w action target policy
unfolding decide denied
decide-IsPermitted w action target policy h = elim (Bool-cases (text_eq action [])) [
  | inl empty ↦ let e : false ≡ true = rw (decide, empty) at h in absurd (cc e)
  | inr full ↦ elim (Bool-cases (any (λ a. text_eq a action) policy.explicitly_denied_actions)) [
    | inl refused ↦ let e : false ≡ true = rw (decide, full, refused) at h in absurd (cc e)
    | inr free ↦ (
      (λ e. cc (e, full, text_eq_refl [])),
      free,
      elim (Bool-cases (text_eq action (codes "read"))) [
        | inl read ↦ inl (
          (text_eq_iff _ _).0 read,
          decide_read-allowed w target policy (rw (decide, full, free, read) at h),
        )
        | inr not_read ↦ elim (Bool-cases (text_eq action (codes "run"))) [
          | inl run ↦ inr (
            (text_eq_iff _ _).0 run,
            decide_run-allowed target policy (rw (decide, full, free, not_read, run) at h),
          )
          | inr not_run ↦
              let e : false ≡ true = rw (decide, full, free, not_read, not_run) at h in
              absurd (cc e)
        ]
      ],
    )
  ]
]

-- The word of an action passes its own test and no other.
read_tests :
    (a : Text) → a ≡ codes "read" → (text_eq a [] ≡ false) × (text_eq a (codes "read") ≡ true)
unfolding text_eq codes
read_tests a e = (
  subst (λ b. text_eq b [] ≡ false) (sym e) refl,
  subst (λ b. text_eq b (codes "read") ≡ true) (sym e) refl,
)

run_tests :
    (a : Text)
    → a ≡ codes "run"
    → (text_eq a [] ≡ false) × (text_eq a (codes "read") ≡ false) × (text_eq a (codes "run") ≡ true)
unfolding text_eq codes
run_tests a e = (
  subst (λ b. text_eq b [] ≡ false) (sym e) refl,
  subst (λ b. text_eq b (codes "read") ≡ false) (sym e) refl,
  subst (λ b. text_eq b (codes "run") ≡ true) (sym e) refl,
)

IsPermitted-decide :
    (w : World) (action target : Text) (policy : Policy)
    → IsPermitted w action target policy
    → (decide w action target policy).allowed ≡ true
unfolding decide denied
IsPermitted-decide w action target policy (named, free, inl (read, r)) =
    let (full, is_read) = read_tests action read in
    rw (full, free, is_read) (ReadIsApproved-allowed w target policy r)
IsPermitted-decide w action target policy (named, free, inr (run, t)) =
    let (full, not_read, is_run) = run_tests action run in
    rw (full, free, not_read, is_run) (ToolIsListed-allowed target policy t)

-- A request is allowed exactly when its stripped action is not empty and not denied, and it is a
-- read of a file that resolves to a file in the repository and in an approved root, or the run of
-- a tool that the policy lists with a command of non-empty texts.
pub decide_request_iff :
    (w : World) (request : Fields) (policy : Policy)
    → ((decide_request w request policy).allowed ≡ true)
      ↔ IsPermitted w
          (text_field w (codes "action") request)
          (text_field w (codes "target") request)
          policy
unfolding decide_request
decide_request_iff w request policy =
    (decide-IsPermitted w _ _ policy, IsPermitted-decide w _ _ policy)

-- The decision on an approved read carries the resolved file.
pub ReadIsApproved-decision :
    (w : World) (action target : Text) (policy : Policy)
    → any (λ a. text_eq a action) policy.explicitly_denied_actions ≡ false
    → action ≡ codes "read"
    → ReadIsApproved w target policy
    → decide w action target policy ≡ record {
      allowed = true;
      action = codes "read";
      target = target;
      reason = codes "Read target is within an approved project source root";
      command = [];
      resolved_path = some (resolved_target w target);
    }
unfolding decide decide_read
ReadIsApproved-decision w action target policy free read r =
    let (full, is_read) = read_tests action read in
    rw
      (
        full,
        free,
        is_read,
        decide_read,
        text_eq_ne target [] r.named,
        resolve_approved-found w target policy r,
        r.is_file,
      )
      refl

-- The decision on a listed tool carries its command.
pub ToolIsListed-decision :
    (w : World) (action target : Text) (policy : Policy) (v : Value) (command : List Text)
    → any (λ a. text_eq a action) policy.explicitly_denied_actions ≡ false
    → action ≡ codes "run"
    → lookup target policy.allowlisted_tools ≡ some v
    → command_of v ≡ some command
    → decide w action target policy ≡ record {
      allowed = true;
      action = codes "run";
      target = target;
      reason = codes "Verification tool exactly matches the allow-list";
      command = command;
      resolved_path = none;
    }
unfolding decide decide_run
ToolIsListed-decision w action target policy v command free run found valid =
    let (full, not_read, is_run) = run_tests action run in
    rw (full, free, not_read, is_run, decide_run, found, valid) refl
