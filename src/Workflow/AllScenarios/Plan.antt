-- ===== src/Workflow/AllScenarios/Plan.antt =====
-- tools/run_all_scenarios.py: the order of the stages as a plan, run by steps until one fails.
use astra_sim_fsw.Base.{
  Bool, true, false, not, List, [], ◌∷◌, ◌≡◌, refl, inl, inr, arith, Text, Exception, Result, ok,
  err, filter, Bool-cases,
}
use astra_sim_fsw.Base.Int.{ℤ, pos, negsuc, int_eq}
use astra_sim_fsw.Workflow.{Trace, World, Place, Ran}
use astra_sim_fsw.Workflow.AllScenarios.{
  Args, run_command, run_build_and_unit_tests, run_scenarios, and_then, unless,
}
use astra_sim_fsw.Workflow.AllScenarios.Main.{
  fdir_command, monte_carlo_command, pi_package_command, protocol_command, requirements_command,
  assistant_eval_command, main,
}

pub data Stage : Type 0 where
  build scenarios fdir monte_carlo pi_package protocol requirements assistant_eval : Stage

abbrev pub stages : List Stage
stages =
    build ∷ scenarios ∷ fdir ∷ monte_carlo ∷ pi_package ∷ protocol ∷ requirements ∷ assistant_eval
    ∷ []

unfoldable pub is_skipped : Args → Stage → Bool
is_skipped args build = args.skip_build
is_skipped args scenarios = false
is_skipped args fdir = args.skip_fdir_campaign
is_skipped args monte_carlo = args.skip_monte_carlo
is_skipped args pi_package = args.skip_pi_package
is_skipped args protocol = args.skip_protocol_check
is_skipped args requirements = args.skip_requirements
is_skipped args assistant_eval = args.skip_assistant_eval

unfoldable pub plan : Args → List Stage
unfolding is_skipped
plan args = filter (λ s. not (is_skipped args s)) stages

-- A plan carried out from a trace: the next stage passes, or ends the run with its code or its
-- exception.
pub data Runs (act : Stage → Trace → Ran) : List Stage → Trace → Ran → Type 0 where
  finished : {t : Trace} → Runs act [] t (t, ok (pos 0))
  passed :
      {s : Stage} {ss : List Stage} {t u : Trace} {r : Ran}
      → act s t ≡ (u, ok (pos 0))
      → Runs act ss u r
      → Runs act (s ∷ ss) t r
  stopped :
      {s : Stage} {ss : List Stage} {t u : Trace} {code : ℤ}
      → act s t ≡ (u, ok code)
      → int_eq code (pos 0) ≡ false
      → Runs act (s ∷ ss) t (u, ok code)
  raised :
      {s : Stage} {ss : List Stage} {t u : Trace} {e : Exception}
      → act s t ≡ (u, err e)
      → Runs act (s ∷ ss) t (u, err e)

-- What each stage does.
unfoldable pub act : World → Place → (Text → Result (List Text)) → Args → Stage → Trace → Ran
act world place glob args build t = run_build_and_unit_tests world place t
act world place glob args scenarios t = run_scenarios world place glob args.pattern args.build_dir t
act world place glob args fdir t = run_command world t (fdir_command place args)
act world place glob args monte_carlo t = run_command world t (monte_carlo_command place args)
act world place glob args pi_package t = run_command world t (pi_package_command place args)
act world place glob args protocol t = run_command world t (protocol_command place)
act world place glob args requirements t = run_command world t (requirements_command place)
act world place glob args assistant_eval t = run_command world t (assistant_eval_command place)

pub int_eq-zero : (code : ℤ) → int_eq code (pos 0) ≡ true → code ≡ pos 0
int_eq-zero (pos n) h = ground arith
int_eq-zero (negsuc n) h = absurd (ground arith)

-- The chain of `main` over a list of stages.
module _ (act : Stage → Trace → Ran) (skipped : Stage → Bool) where
  chain : Ran → List Stage → Ran
  chain ran [] = ran
  chain ran (s ∷ ss) = chain (and_then ran (unless (skipped s) (act s))) ss

  chain-err : (t : Trace) (e : Exception) (ss : List Stage) → chain (t, err e) ss ≡ (t, err e)
  unfolding chain and_then
  chain-err t e [] = refl
  chain-err t e (s ∷ ss) = chain-err t e ss

  chain_stopped :
      (t : Trace) (code : ℤ) (ss : List Stage)
      → int_eq code (pos 0) ≡ false
      → chain (t, ok code) ss ≡ (t, ok code)
  unfolding chain and_then
  chain_stopped t code [] h = refl
  chain_stopped t code (s ∷ ss) h = rw h (chain_stopped t code ss h)

  -- What a stage leaves decides the step.
  step_of :
      (s : Stage) (rest ss : List Stage) (t : Trace) (ran : Ran)
      → act s t ≡ ran
      → ((u : Trace) → Runs act rest u (chain (u, ok (pos 0)) ss))
      → Runs act (s ∷ rest) t (chain ran ss)
  step_of s rest ss t (u, err e) h next = rw (chain-err u e ss) (raised h)
  step_of s rest ss t (u, ok code) h next = elim (Bool-cases (int_eq code (pos 0))) [
    | inr nonzero ↦ rw (chain_stopped u code ss nonzero) (stopped h nonzero)
    | inl same ↦ let e = int_eq-zero code same in rw e (passed (rw e at h) (next u))
  ]

  chain-Runs :
      (t : Trace) (ss : List Stage)
      → Runs act (filter (λ s. not (skipped s)) ss) t (chain (t, ok (pos 0)) ss)
  unfolding chain and_then unless
  chain-Runs t [] = finished
  chain-Runs t (s ∷ ss) = elim (Bool-cases (skipped s)) [
    | inl out ↦ rw out (chain-Runs t ss)
    | inr asked ↦
        rw asked
          (step_of s (filter (λ s. not (skipped s)) ss) ss t (act s t) refl (λ u. chain-Runs u ss))
  ]

-- `main` carries out the plan of the requested stages, which stand in the order build, scenarios,
-- FDIR campaign, Monte Carlo, package, protocol, requirements, assistant: each stage starts only
-- where the one before returned 0; the first that returns another code ends the run with that
-- code, and one that raises ends it with its exception.
pub main-Runs :
    (world : World) (place : Place) (glob : Text → Result (List Text)) (args : Args)
    → Runs (act world place glob args) (plan args) [] (main world place glob args)
unfolding main plan act chain is_skipped
main-Runs world place glob args = chain-Runs (act world place glob args) (is_skipped args) [] stages
