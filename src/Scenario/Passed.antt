-- ===== src/Scenario/Passed.antt =====
-- What the exit code zero of a scenario says.
use astra_sim_fsw.Base.{
  Bool, true, false, List, map, ◌≡◌, refl, sym, ap, ◌∙◌, inl, inr, Text, Result, ok, err,
  Result-cases, Bool-cases, length,
}
use astra_sim_fsw.Base.Json.{str, obj, Fields}
use astra_sim_fsw.Scenario.Run.{State, run_steps}
use astra_sim_fsw.Scenario.Order.{numbers_from, commands_of, run_steps-IsInOrder}
use astra_sim_fsw.Scenario.Server.{Config, config_of, server_args}
use astra_sim_fsw.Scenario.Main.{
  Surroundings, with_rounds, Outcome, finish, start, launch, steps_of, main_mapping, main,
}

-- The server ran, and the commands of the steps were sent, all of them, numbered from one.
abbrev pub IsComplete : Surroundings → List Fields → Outcome → Type 0
IsComplete around steps outcome =
    (outcome.started ≡ true)
    × (map (λ x. x.sequence) outcome.sends ≡ numbers_from 1 (length outcome.sends))
    × (map (λ x. str x.command) outcome.sends ≡ commands_of (with_rounds around.rounds 0 steps))

finish-IsComplete :
    (around : Surroundings) (name : Text) (scenario : Fields) (steps : List Fields)
    (r : State × Result Bool)
    → run_steps around.outside start (with_rounds around.rounds 0 steps) ≡ r
    → (finish around name scenario r).result ≡ ok 0
    → IsComplete around steps (finish around name scenario r)
unfolding finish
finish-IsComplete around name scenario steps (s, err e) ran h = absurd (cc h)
finish-IsComplete around name scenario steps (s, ok false) ran h = absurd (cc h)
finish-IsComplete around name scenario steps (s, ok true) ran h =
    let (new, added, numbers, passed) =
      run_steps-IsInOrder around.outside start (with_rounds around.rounds 0 steps) in
    let all : s.sends ≡ new = sym (ap (λ r. r.0.sends) ran) ∙ added in
    let sent = passed (ap (λ r. r.1) ran) in
    (
      refl,
      ap (map (λ x. x.sequence)) all ∙ numbers ∙ ap (λ l. numbers_from 1 (length l)) (sym all),
      ap (map (λ x. str x.command)) all ∙ sent,
    )

launch-IsComplete :
    (around : Surroundings) (name : Text) (scenario : Fields) (config : Config)
    (steps : List Fields)
    → (launch around name scenario config steps).result ≡ ok 0
    → IsComplete around steps (launch around name scenario config steps)
unfolding launch
launch-IsComplete around name scenario config steps h = elim (Bool-cases around.server_exists) [
  | inr missing ↦ absurd (cc (rw (launch, missing) at h))
  | inl there ↦ elim (Result-cases (server_args around.host config)) [
    | inr (e, raised) ↦ absurd (cc (rw (launch, there, raised) at h))
    | inl (args, made) ↦
        rw (launch, there, made)
          (finish-IsComplete around name scenario steps _ refl (rw (launch, there, made) at h))
  ]
]

-- A scenario that ends with exit code 0 had well-formed steps; the server was started, and the
-- commands of all its steps were sent in their order, with the sequence numbers 1, 2, 3 and so on.
pub main_mapping-IsComplete :
    (around : Surroundings) (name : Text) (scenario : Fields)
    → (main around name (obj scenario)).result ≡ ok 0
    → (steps : List Fields) × (steps_of scenario ≡ ok steps)
      × IsComplete around steps (main around name (obj scenario))
unfolding main main_mapping
main_mapping-IsComplete around name scenario h = elim (Result-cases (config_of scenario)) [
  | inr (e, raised) ↦ absurd (cc (rw (main_mapping, raised) at h))
  | inl (config, made) ↦ elim (Result-cases (steps_of scenario)) [
    | inr (e, refused) ↦ absurd (cc (rw (main_mapping, made, refused) at h))
    | inl (steps, checked) ↦ (
      steps,
      checked,
      rw (main_mapping, made, checked)
          (launch-IsComplete around name scenario config steps
            (rw (main_mapping, made, checked) at h)),
    )
  ]
]
