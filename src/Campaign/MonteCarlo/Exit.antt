-- ===== src/Campaign/MonteCarlo/Exit.antt =====
-- tools/run_monte_carlo.py: every trial is run and reported, and when the campaign returns 0.
use astra_sim_fsw.Base.{
  ℕ, zero, suc, ◌+◌, ◌-◌, true, false, List, [], ◌∷◌, ◌≡◌, ◌↔◌, refl, sym, ap, ◌∙◌, inl, inr, arith,
  some, Text, ok, length, count_if-le-length, Bool-cases, ==_ne, ◌==◌,
}
use astra_sim_fsw.Base.Int.{pos}
use astra_sim_fsw.Base.Json.{Fields}
use astra_sim_fsw.Campaign.{
  nothing, text, bytes, Child, finished, timed_out, Outside, joined_path, relative_to,
  exit_code-zero_iff, is_passed,
}
use astra_sim_fsw.Campaign.MonteCarlo.{Draws, choice}
use astra_sim_fsw.Campaign.MonteCarlo.Run.{
  make_case, trial_name, Trial, Args, run_trial, run_trials, failed, write_report, after_report,
  conclude, campaign, main,
}

-- Every child of a number of trials returns 0.
abbrev pub Passing : Outside → (ℕ → Draws) → ℕ → ℕ → Type 0
Passing outside rng trial_id zero = Unit
Passing outside rng trial_id (suc n) =
    (is_passed (outside.child (trial_id - 1) (make_case (rng trial_id) trial_id)) ≡ true)
    × Passing outside rng (1 + trial_id) n

run_trial-passed :
    (decode : List ℕ → Text) (limit : Text) (child : Child)
    → (run_trial decode limit child).0 ≡ is_passed (ok child)
unfolding run_trial
run_trial-passed decode limit (finished code output) = refl
run_trial-passed decode limit (timed_out nothing) = refl
run_trial-passed decode limit (timed_out (text partial)) = refl
run_trial-passed decode limit (timed_out (bytes [])) = refl
run_trial-passed decode limit (timed_out (bytes (b ∷ partial))) = refl

failed-cons :
    (t : Trial) (ts : List Trial) → (failed (t ∷ ts) ≡ 0) ↔ ((t.passed ≡ true) × (failed ts ≡ 0))
unfolding failed
failed-cons t ts = elim (Bool-cases t.passed) [
  | inl e ↦ rw e (
    λ h. (refl, omega (arith, h, count_if-le-length (λ (r : Trial). r.passed) ts)),
    λ h. omega (arith, h.1),
  )
  | inr e ↦ rw e (
    λ h. absurd (omega (arith, h, count_if-le-length (λ (r : Trial). r.passed) ts)),
    λ h. absurd (cc (h.0)),
  )
]

module _ (outside : Outside) (decode : List ℕ → Text) (rng : ℕ → Draws) (limit : Text)
    (starts : (i : ℕ) (s : Fields) → (c : Child) × (outside.child i s ≡ ok c)) where
  run_trials-Passing :
      (trial_id n : ℕ)
      → (trials : List Trial) × (run_trials outside decode rng limit trial_id n ≡ ok trials)
        × (length trials ≡ n)
        × ((failed trials ≡ 0) ↔ Passing outside rng trial_id n)
  unfolding run_trials
  run_trials-Passing trial_id zero = ([], refl, refl, (λ h. tt, λ h. unfold failed in refl))
  run_trials-Passing trial_id (suc n) =
      let (child, e) = starts (trial_id - 1) (make_case (rng trial_id) trial_id) in
      let (trials, run, count, (there, back)) = run_trials-Passing (1 + trial_id) n in
      let this : Trial = record {
        name = trial_name (rng trial_id) trial_id;
        requirements = (choice (rng trial_id)).requirements;
        passed = (run_trial decode limit child).0;
        output = (run_trial decode limit child).1;
      } in
      let (split, join) = failed-cons this trials in
      let same = run_trial-passed decode limit child in
      (
        this ∷ trials,
        rw (run_trials, e) (rw run refl),
        ap suc count,
        (
          λ h. (rw e (sym same ∙ (split h).0), there (split h).1),
          λ h. join (same ∙ (rw e at (h.0)), back h.1),
        ),
      )

-- Where every child can be started and the report can be written under the root, a campaign with a
-- positive number of trials and a positive time limit reports on just as many trials, whatever
-- the children return and also where they time out; and it returns 0 exactly when every child
-- returned 0.
pub main-Passing :
    (outside : Outside) (decode : List ℕ → Text) (rng : ℕ → Draws) (root shown : Text) (args : Args)
    (n : ℕ)
    → args.trials ≡ pos (suc n)
    → args.timeout_positive ≡ true
    → ((i : ℕ) (s : Fields) → (c : Child) × (outside.child i s ≡ ok c))
    → ((path written : Text) → outside.write path written ≡ ok tt)
    → relative_to root (joined_path root args.output) ≡ ok shown
    → let outcome = main outside decode rng root args in
      (length outcome.trials ≡ suc n)
      × (outcome.report ≡ some (write_report args.seed outcome.trials))
      × ((outcome.result ≡ ok (pos 0)) ↔ Passing outside rng 1 (suc n))
unfolding main campaign conclude after_report
main-Passing outside decode rng root shown args n number positive starts writes under =
    let (trials, run, count, (there, back)) =
      run_trials-Passing outside decode rng args.timeout_text starts 1 (suc n) in
    let path = joined_path root args.output in
    let written = writes path (write_report args.seed trials) in
    let zero_code = exit_code-zero_iff (failed trials) in
    let some_trials : (suc n == 0) ≡ false = ==_ne (suc n) 0 (λ e. omega (arith, e)) in
    rw (main, number)
      (rw (some_trials, positive)
        (rw (campaign, run)
          (rw (conclude, after_report, written)
            (count, refl, rw under (λ h. there (zero_code.0 h), λ h. zero_code.1 (back h))))))
