-- ===== src/Workflow/AllScenarios/Performed.antt =====
-- tools/run_all_scenarios.py: which commands a function starts, and when it returns 0.
use astra_sim_fsw.Base.{
  Bool, true, false, ◌&&◌, List, [], ◌∷◌, ◌++◌, ◌≡◌, ◌↔◌, refl, sym, ap, subst, ◌∙◌, inl, inr,
  arith, Result, ok, err, Bool-cases, append_assoc, append-nil,
}
use astra_sim_fsw.Base.Int.{ℤ, pos, int_eq}
use astra_sim_fsw.Workflow.{Command, Trace, World, Ran, run}
use astra_sim_fsw.Workflow.AllScenarios.{code_of, run_command}

abbrev pub returns_zero : Result ℤ → Bool
returns_zero (err e) = false
returns_zero (ok code) = int_eq code (pos 0)

-- Every command returns 0 behind the ones before it.
abbrev pub AllPass : World → Trace → List Command → Type 0
AllPass world t [] = Unit
AllPass world t (c ∷ cs) = (returns_zero (world t c) ≡ true) × AllPass world (t ++ (c ∷ [])) cs

-- The commands are started in their order, up to one where the run ends; 0 is returned exactly
-- when the list is admissible and every command returns 0, and then all were started.
pub record Performs (world : World) (good : Bool) (cs : List Command) (t : Trace) (r : Ran)
    : Type 0 where
  pub begins : (rest : List Command) × (r.0 ++ rest ≡ t ++ cs)
  pub zero_iff : (returns_zero r.1 ≡ true) ↔ ((good ≡ true) × AllPass world t cs)
  pub complete : returns_zero r.1 ≡ true → r.0 ≡ t ++ cs

pub AllPass-append_iff :
    (world : World) (t : Trace) (cs ds : List Command)
    → AllPass world t (cs ++ ds) ↔ (AllPass world t cs × AllPass world (t ++ cs) ds)
AllPass-append_iff world t [] ds = rw (append-nil t) (λ h. (tt, h), λ h. h.1)
AllPass-append_iff world t (c ∷ cs) ds =
    let (there, back) = AllPass-append_iff world (t ++ (c ∷ [])) cs ds in
    let same : (t ++ (c ∷ [])) ++ cs ≡ t ++ (c ∷ cs) = append_assoc t (c ∷ []) cs in
    subst
      (λ u. (AllPass world t (c ∷ (cs ++ ds))) ↔ (AllPass world t (c ∷ cs) × AllPass world u ds))
      same (λ h. ((h.0, (there h.1).0), (there h.1).1), λ h. (h.0.0, back (h.0.1, h.1)))

-- A part that does not return 0 ends the run.
pub ended-Performs :
    (world : World) (good more : Bool) (cs ds : List Command) (t : Trace) (r : Ran)
    → Performs world good cs t r
    → returns_zero r.1 ≡ false
    → Performs world (good && more) (cs ++ ds) t r
ended-Performs world good more cs ds t r p nonzero = record {
  begins =
      let (rest, e) = p.begins in
      (rest ++ ds, sym (append_assoc r.0 rest ds) ∙ ap (λ u. u ++ ds) e ∙ append_assoc t cs ds);
  zero_iff = (
    λ h. absurd (cc (h)),
    λ h. absurd (
        let (good_part, all) = h in
        let again = p.zero_iff.1 (ground arith, ((AllPass-append_iff world t cs ds).0 all).0) in
        cc),
  );
  complete = λ h. absurd (cc (h));
}

-- Behind a part that returned 0 comes the next.
pub joined-Performs :
    (world : World) (good more : Bool) (cs ds : List Command) (t u : Trace) (r : Ran)
    → Performs world good cs t (u, ok (pos 0))
    → Performs world more ds u r
    → Performs world (good && more) (cs ++ ds) t r
joined-Performs world good more cs ds t u r p q =
    let at : u ≡ t ++ cs = p.complete refl in
    let (fine, all) = p.zero_iff.0 refl in
    let whole : u ++ ds ≡ t ++ (cs ++ ds) = ap (λ v. v ++ ds) at ∙ append_assoc t cs ds in
    record {
      begins = let (rest, e) = q.begins in (rest, e ∙ whole);
      zero_iff = (
        λ h.
            let (more_fine, others) = q.zero_iff.0 h in
            (
              ground arith,
              (AllPass-append_iff world t cs ds).1 (all, subst (λ v. AllPass world v ds) at others),
            ),
        λ h. q.zero_iff.1 (
          ground arith,
          subst (λ v. AllPass world v ds) (sym at) ((AllPass-append_iff world t cs ds).0 h.1).1,
        ),
      );
      complete = λ h. q.complete h ∙ whole;
    }

-- One command whose code is passed on.
pub run_command-Performs :
    (world : World) (t : Trace) (c : Command)
    → Performs world true (c ∷ []) t (run_command world t c)
unfolding run_command run code_of
run_command-Performs world t c = go (world t c) refl
  where
    go :
        (returned : Result ℤ)
        → world t c ≡ returned
        → Performs world true (c ∷ []) t (t ++ (c ∷ []), code_of returned)
    go (err e) h = record {
      begins = ([], append-nil _);
      zero_iff = (λ z. absurd (cc (z)), λ z. absurd (cc (rw h at (z.1.0))));
      complete = λ z. refl;
    }
    go (ok code) h = elim (Bool-cases (int_eq code (pos 0))) [
      | inl same ↦ rw same (record {
        begins = ([], append-nil _);
        zero_iff = (λ z. (refl, (rw h same, tt)), λ z. refl);
        complete = λ z. refl;
      })
      | inr other ↦ rw other (record {
        begins = ([], append-nil _);
        zero_iff = (λ z. absurd (cc (z, other)), λ z. absurd (cc (rw h at (z.1.0))));
        complete = λ z. refl;
      })
    ]
