-- ===== src/Workflow/AllScenarios/Scenarios.antt =====
-- tools/run_all_scenarios.py: `run_scenarios`, where a scenario that fails does not end the loop.
use astra_sim_fsw.Base.{
  Bool, true, false, ◌&&◌, List, [], ◌∷◌, ◌++◌, ◌≡◌, refl, sym, ◌∙◌, inl, inr, arith, Option, Text,
  Result, ok, err, ◌>>=◌, Bool-cases, append_assoc, append-nil, count_if-le-length, map, ◌==◌,
  if◌then◌else◌,
}
use astra_sim_fsw.Base.Int.{ℤ, pos, int_eq}
use astra_sim_fsw.Workflow.{Command, Trace, World, Place, run}
use astra_sim_fsw.Workflow.AllScenarios.{
  scenario_files, scenario_command, scenario_results, failed, run_scenarios,
}
use astra_sim_fsw.Workflow.AllScenarios.Performed.{returns_zero, Performs}

abbrev pub nonempty : List Text → Bool
nonempty [] = false
nonempty (file ∷ files) = true

-- The code that the results of the loop give.
verdict : Result (List (Text × ℤ)) → Result ℤ
verdict results = results >>= λ all. ok (if failed all == 0 then pos 0 else pos 1)

verdict-cons :
    (file : Text) (code : ℤ) (results : Result (List (Text × ℤ)))
    → returns_zero (verdict (results >>= λ others. ok ((file, code) ∷ others)))
      ≡ (int_eq code (pos 0) && returns_zero (verdict results))
unfolding verdict failed
verdict-cons file code (err e) = ground arith
verdict-cons file code (ok others) = elim (Bool-cases (int_eq code (pos 0))) [
  | inl same ↦ rw same (ground arith)
  | inr other ↦ rw other (ground (arith, count_if-le-length (λ r. int_eq r.1 (pos 0)) others))
]

-- A command whose code only counts at the end.
counted-Performs :
    (world : World) (c : Command) (cs : List Command) (t last : Trace) (code : ℤ) (r v : Result ℤ)
    → world t c ≡ ok code
    → returns_zero v ≡ (int_eq code (pos 0) && returns_zero r)
    → Performs world true cs (t ++ (c ∷ [])) (last, r)
    → Performs world true (c ∷ cs) t (last, v)
counted-Performs world c cs t last code r v h e p =
    let whole = append_assoc t (c ∷ []) cs in
    record {
      begins = let (rest, b) = p.begins in (rest, b ∙ whole);
      zero_iff = (
        λ z.
            let both : (int_eq code (pos 0) && returns_zero r) ≡ true = sym e ∙ z in
            let (fine, others) = p.zero_iff.0 (ground arith) in
            (refl, (rw h (ground arith), others)),
        λ z.
            let one : int_eq code (pos 0) ≡ true = rw h at (z.1.0) in
            let others = p.zero_iff.1 (refl, z.1.1) in rw (e, one) others,
      );
      complete = λ z.
          let both : (int_eq code (pos 0) && returns_zero r) ≡ true = sym e ∙ z in
          p.complete (ground arith) ∙ whole;
    }

scenario_results-Performs :
    (world : World) (place : Place) (build_dir : Text) (t : Trace) (files : List Text)
    → Performs world true (map (scenario_command place build_dir) files) t (
      (scenario_results world place build_dir t files).0,
      verdict (scenario_results world place build_dir t files).1,
    )
unfolding scenario_results verdict failed run
scenario_results-Performs world place build_dir t [] = record {
  begins = ([], refl);
  zero_iff = (λ z. (refl, tt), λ z. refl);
  complete = λ z. sym (append-nil t);
}
scenario_results-Performs world place build_dir t (file ∷ files) =
    go (world t command) refl
      (scenario_results-Performs world place build_dir (t ++ (command ∷ [])) files)
  where
    command : Command
    command = scenario_command place build_dir file

    go :
        (returned : Result ℤ)
        → world t command ≡ returned
        → Performs world true (map (scenario_command place build_dir) files) (t ++ (command ∷ [])) (
          (scenario_results world place build_dir (t ++ (command ∷ [])) files).0,
          verdict (scenario_results world place build_dir (t ++ (command ∷ [])) files).1,
        )
        → Performs world true (command ∷ map (scenario_command place build_dir) files) t (
          (scenario_results world place build_dir t (file ∷ files)).0,
          verdict (scenario_results world place build_dir t (file ∷ files)).1,
        )
    go (err e) h p =
        rw (scenario_results, h)
          (record {
            begins = (
              map (scenario_command place build_dir) files,
              append_assoc t (command ∷ []) (map (scenario_command place build_dir) files),
            );
            zero_iff = (λ z. absurd (cc (z)), λ z. absurd (cc (rw h at (z.1.0))));
            complete = λ z. absurd (cc (z));
          })
    go (ok code) h p =
        rw (scenario_results, h)
          (counted-Performs world command (map (scenario_command place build_dir) files) t
            (scenario_results world place build_dir (t ++ (command ∷ [])) files).0 code
            (verdict (scenario_results world place build_dir (t ++ (command ∷ [])) files).1) _ h
            (verdict-cons file code
              (scenario_results world place build_dir (t ++ (command ∷ [])) files).1)
            p)

-- Where no scenario matches, the code is 1.
pub run_scenarios-Performs :
    (world : World) (place : Place) (glob : Text → Result (List Text)) (pattern : Option Text)
    (build_dir : Text) (t : Trace) (files : List Text)
    → scenario_files glob pattern ≡ ok files
    → Performs world
        (nonempty files)
        (map (scenario_command place build_dir) files)
        t
        (run_scenarios world place glob pattern build_dir t)
unfolding run_scenarios verdict failed
run_scenarios-Performs world place glob pattern build_dir t [] h =
    rw (run_scenarios, h)
      (record {
        begins = ([], refl);
        zero_iff = (λ z. absurd (cc (z)), λ z. absurd (cc (z.0)));
        complete = λ z. absurd (cc (z));
      })
run_scenarios-Performs world place glob pattern build_dir t (file ∷ files) h =
    rw (run_scenarios, h) (scenario_results-Performs world place build_dir t (file ∷ files))
