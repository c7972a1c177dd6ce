-- ===== src/Timing/Valid.antt =====
-- tools/validate_timing_evidence.py: which evidence is valid.
use astra_sim_fsw.Base.{
  ℕ, Bool, true, false, List, [], ◌∷◌, ◌++◌, ◌≡◌, ◌↔◌, refl, ap, subst, inl, inr, arith, map,
  Option, none, some, Text, codes, text_eq, text_eq_iff, ok, All, Bool-cases, ok-injective,
}
use Prim.Native.String.{String}
use astra_sim_fsw.Base.Int.{ℤ, pos, negsuc, int_eq, ltb_ℤ}
use astra_sim_fsw.Base.Json.{
  Value, int, float, special, nan, infinity, minus_infinity, str, obj, Fields, get, equals_text,
}
use astra_sim_fsw.Requirements.Consistent.{append-nil_iff}
use astra_sim_fsw.Timing.{
  required_numeric_fields, ordered_fields, differs_from, problem, lacks_claim, number_problem,
  number_problems, as_int, at_most_zero, is_nonzero, numbers, has_special, is_misordered,
  misses_problems, validate, expectation, exit_of, main,
}
use astra_sim_fsw.Timing.Ascending.{IsAscending, int_eq_iff, is_unordered_iff}

-- A number that is not below 0, and is no Boolean; NaN is not below 0.
abbrev pub IsMeasure : Option Value → Type 0
IsMeasure (some (int (pos n))) = Unit
IsMeasure (some (float (pos m) e)) = Unit
IsMeasure (some (special nan)) = Unit
IsMeasure (some (special infinity)) = Unit
IsMeasure _ = ⊥

-- What the expectation says of the deadline misses, where they are an integer.
abbrev pub AsExpected : Option Bool → Option ℤ → Type 0
AsExpected (some true) (some n) = ltb_ℤ (pos 0) n ≡ true
AsExpected (some false) (some n) = n ≡ pos 0
AsExpected _ _ = Unit

pub record IsValid (payload : Fields) (expect_misses : Option Bool) : Type 0 where
  pub schema : get (codes "schema") payload ≡ some (str (codes "astra-os.host-timing.v1"))
  pub claim : (c : ℕ) × (s : Text) × (get (codes "claim_boundary") payload ≡ some (str (c ∷ s)))
  pub measures : All (λ f. IsMeasure (get f payload)) required_numeric_fields
  pub ticks : (n : ℤ) → as_int (get (codes "ticks") payload) ≡ some n → ltb_ℤ (pos 0) n ≡ true
  pub ascending :
      (ns : List ℤ) → numbers (map (λ f. get f payload) ordered_fields) ≡ some ns → IsAscending ns
  pub nominal : get (codes "final_mode") payload ≡ some (str (codes "NOMINAL"))
  pub no_fault : get (codes "final_fault") payload ≡ some (str (codes "NONE"))
  pub misses : AsExpected expect_misses (as_int (get (codes "scheduler_deadline_misses") payload))

differs_from_iff :
    (text : Text) (v : Option Value) → (differs_from text v ≡ false) ↔ (v ≡ some (str text))
unfolding differs_from equals_text
differs_from_iff text none = (λ h. absurd (cc (h)), λ h. absurd (cc (h)))
differs_from_iff text (some (str s)) = elim (Bool-cases (text_eq s text)) [
  | inl same ↦ rw same (λ h. ap (λ t. some (str t)) ((text_eq_iff s text).0 same), λ h. refl)
  | inr other ↦
      rw other (λ h. absurd (cc (h)), λ h. absurd (cc (other, (text_eq_iff s text).1 (cc (h)))))
]
differs_from_iff text (some _) = (λ h. absurd (cc (h)), λ h. absurd (cc (h)))

lacks_claim_iff :
    (v : Option Value) → (lacks_claim v ≡ false) ↔ ((c : ℕ) × (s : Text) × (v ≡ some (str (c ∷ s))))
unfolding lacks_claim
lacks_claim_iff (some (str (c ∷ s))) = (λ h. (c, s, refl), λ h. refl)
lacks_claim_iff _ = (λ h. absurd (cc (h)), λ h. absurd (cc (h.2)))

number_problem-nil_iff :
    (field : Text) (v : Option Value) → (number_problem field v ≡ []) ↔ IsMeasure v
unfolding number_problem
number_problem-nil_iff field (some (int (pos n))) = (λ h. tt, λ h. refl)
number_problem-nil_iff field (some (int (negsuc n))) = (λ h. absurd (cc (h)), λ h. absurd h)
number_problem-nil_iff field (some (float (pos m) e)) = (λ h. tt, λ h. refl)
number_problem-nil_iff field (some (float (negsuc m) e)) = (λ h. absurd (cc (h)), λ h. absurd h)
number_problem-nil_iff field (some (special nan)) = (λ h. tt, λ h. refl)
number_problem-nil_iff field (some (special infinity)) = (λ h. tt, λ h. refl)
number_problem-nil_iff field (some (special minus_infinity)) = (λ h. absurd (cc (h)), λ h. absurd h)
number_problem-nil_iff field _ = (λ h. absurd (cc (h)), λ h. absurd h)

number_problems-nil_iff :
    (payload : Fields) (fields : List Text)
    → (number_problems payload fields ≡ []) ↔ All (λ f. IsMeasure (get f payload)) fields
unfolding number_problems
number_problems-nil_iff payload [] = (λ h. tt, λ h. refl)
number_problems-nil_iff payload (f ∷ fs) =
    let (a, a') = append-nil_iff (number_problem f (get f payload)) (number_problems payload fs) in
    let (b, b') = number_problem-nil_iff f (get f payload) in
    let (c, c') = number_problems-nil_iff payload fs in
    (λ h. (b (a h).0, c (a h).1), λ h. a' (b' h.0, c' h.1))

at_most_zero_iff :
    (v : Option ℤ) → (at_most_zero v ≡ false) ↔ ((n : ℤ) → v ≡ some n → ltb_ℤ (pos 0) n ≡ true)
unfolding at_most_zero
at_most_zero_iff none = (λ h n e. absurd (cc (e)), λ h. refl)
at_most_zero_iff (some m) = (
  λ h n e. let same : m ≡ n = cc (e) in subst (λ k. ltb_ℤ (pos 0) k ≡ true) same (ground arith),
  λ h. let large = h m refl in ground arith,
)

misses_problems-nil_iff :
    (expect_misses : Option Bool) (misses : Option ℤ)
    → (misses_problems expect_misses misses ≡ []) ↔ AsExpected expect_misses misses
unfolding misses_problems at_most_zero is_nonzero
misses_problems-nil_iff none misses = (λ h. tt, λ h. refl)
misses_problems-nil_iff (some true) none = (λ h. tt, λ h. refl)
misses_problems-nil_iff (some false) none = (λ h. tt, λ h. refl)
misses_problems-nil_iff (some true) (some n) = elim (Bool-cases (ltb_ℤ (pos 0) n)) [
  | inl large ↦ rw large (λ h. refl, λ h. refl)
  | inr small ↦ rw small (λ h. absurd (cc (h)), λ h. absurd (cc (h)))
]
misses_problems-nil_iff (some false) (some n) = elim (Bool-cases (int_eq n (pos 0))) [
  | inl same ↦ rw same (λ h. (int_eq_iff n (pos 0)).0 same, λ h. refl)
  | inr other ↦
      rw other (λ h. absurd (cc (h)), λ h. absurd (cc (other, (int_eq_iff n (pos 0)).1 h)))
]

-- Finite values are misordered exactly when they do not ascend.
is_misordered_iff :
    (differs : List (Option Value) → Bool) (vs : List (Option Value))
    → has_special vs ≡ false
    → (is_misordered differs vs ≡ false) ↔ ((ns : List ℤ) → numbers vs ≡ some ns → IsAscending ns)
unfolding is_misordered
is_misordered_iff differs vs finite = rw finite (is_unordered_iff (numbers vs))

-- A check before the others.
problem-append_iff :
    {P : Type 0} (found : Bool) (message : String) (rest : List Text)
    → ((found ≡ false) ↔ P)
    → (problem found message ++ rest ≡ []) ↔ (P × (rest ≡ []))
problem-append_iff true message rest (there, back) =
    (λ h. absurd (cc (h)), λ h. let e = back h.0 in absurd (cc (e)))
problem-append_iff false message rest (there, back) = (λ h. (there refl, h), λ h. h.1)

validate-nil_iff :
    (differs : List (Option Value) → Bool) (payload : Fields) (expect_misses : Option Bool)
    → has_special (map (λ f. get f payload) ordered_fields) ≡ false
    → (validate differs payload expect_misses ≡ []) ↔ IsValid payload expect_misses
unfolding validate
validate-nil_iff differs payload expect_misses finite =
    let last =
      misses_problems expect_misses (as_int (get (codes "scheduler_deadline_misses") payload)) in
    let fault =
      problem (differs_from (codes "NONE") (get (codes "final_fault") payload))
        "timing campaign finished with an unexpected fault"
      ++ last in
    let mode =
      problem (differs_from (codes "NOMINAL") (get (codes "final_mode") payload))
        "timing campaign did not finish in NOMINAL"
      ++ fault in
    let ordered =
      problem (is_misordered differs (map (λ f. get f payload) ordered_fields))
        "timing percentile fields are not monotonic"
      ++ mode in
    let ticks =
      problem (at_most_zero (as_int (get (codes "ticks") payload)))
        "ticks must be greater than zero"
      ++ ordered in
    let measured = number_problems payload required_numeric_fields ++ ticks in
    let claimed =
      problem (lacks_claim (get (codes "claim_boundary") payload)) "missing claim boundary"
      ++ measured in
    let (a, a') =
      problem-append_iff _ "unexpected or missing schema" claimed
        (differs_from_iff (codes "astra-os.host-timing.v1") (get (codes "schema") payload)) in
    let (b, b') =
      problem-append_iff _ "missing claim boundary" measured
        (lacks_claim_iff (get (codes "claim_boundary") payload)) in
    let (c, c') = append-nil_iff (number_problems payload required_numeric_fields) ticks in
    let (r, r') = number_problems-nil_iff payload required_numeric_fields in
    let (d, d') =
      problem-append_iff _ "ticks must be greater than zero" ordered
        (at_most_zero_iff (as_int (get (codes "ticks") payload))) in
    let (e, e') =
      problem-append_iff _ "timing percentile fields are not monotonic" mode
        (is_misordered_iff differs (map (λ f. get f payload) ordered_fields) finite) in
    let (f, f') =
      problem-append_iff _ "timing campaign did not finish in NOMINAL" fault
        (differs_from_iff (codes "NOMINAL") (get (codes "final_mode") payload)) in
    let (g, g') =
      problem-append_iff _ "timing campaign finished with an unexpected fault" last
        (differs_from_iff (codes "NONE") (get (codes "final_fault") payload)) in
    let (w, w') =
      misses_problems-nil_iff expect_misses
        (as_int (get (codes "scheduler_deadline_misses") payload)) in
    (
      (λ h.
          let (schema, h1) = a h in
          let (claim, h2) = b h1 in
          let (measures, h3) = c h2 in
          let (ticks_positive, h4) = d h3 in
          let (ascending, h5) = e h4 in
          let (nominal, h6) = f h5 in
          let (no_fault, h7) = g h6 in
          record {
            schema = schema;
            claim = claim;
            measures = r measures;
            ticks = ticks_positive;
            ascending = ascending;
            nominal = nominal;
            no_fault = no_fault;
            misses = w h7;
          }),
      (λ h.
          let h7 = g' (h.no_fault, w' h.misses) in
          let h6 = f' (h.nominal, h7) in
          let h5 = e' (h.ascending, h6) in
          let h4 = d' (h.ticks, h5) in
          let h3 = c' (r' h.measures, h4) in let h2 = b' (h.claim, h3) in a' (h.schema, h2)),
    )

exit_of_iff : (problems : List Text) → (ok (exit_of problems) ≡ ok 0) ↔ (problems ≡ [])
unfolding exit_of
exit_of_iff [] = (λ h. refl, λ h. refl)
exit_of_iff (p ∷ ps) =
    (λ h. let e : 1 ≡ 0 = ok-injective h in absurd (omega (arith, e)), λ h. absurd (cc (h)))

-- Where none of the timing fields that are compared is NaN or infinite, whatever comparing such
-- values gives, the check of an object returns 0 exactly when it has the schema and a claim boundary, each
-- required field is a number that is not negative, the ticks are positive where they are an
-- integer, the timing fields ascend, the final mode is NOMINAL and the final fault NONE, and the
-- deadline misses, where they are an integer, are positive where misses are expected and 0 where
-- none are.
pub main-IsValid :
    (differs : List (Option Value) → Bool) (expect_misses expect_no_misses : Bool)
    (payload : Fields)
    → has_special (map (λ f. get f payload) ordered_fields) ≡ false
    → (main differs expect_misses expect_no_misses (ok (obj payload)) ≡ ok 0)
      ↔ IsValid payload (expectation expect_misses expect_no_misses)
unfolding main
main-IsValid differs expect_misses expect_no_misses payload finite =
    let expected = expectation expect_misses expect_no_misses in
    let (there, back) = exit_of_iff (validate differs payload expected) in
    let (on, off) = validate-nil_iff differs payload expected finite in
    (λ h. on (there h), λ h. back (off h))
