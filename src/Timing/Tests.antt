-- ===== src/Timing/Tests.antt =====
-- tools/validate_timing_evidence.py on small evidence.
use astra_sim_fsw.Base.{
  Bool, true, false, List, map, Option, some, [], ◌∷◌, ◌≡◌, ◌↔◌, refl, codes, text_eq, ok,
}
use astra_sim_fsw.Base.Int.{pos}
use astra_sim_fsw.Base.Json.{
  Value, int, float, special, infinity, str, obj, object, Fields, get, equals_text,
}
use astra_sim_fsw.Timing.{
  validate, expectation, main, differs_from, lacks_claim, number_problem, number_problems, as_int,
  at_most_zero, is_nonzero, units, scaled, numbers, insert_number, sorted_numbers, same_numbers,
  is_unordered, is_misordered, has_special, is_special, are_numbers, is_number, ordered_fields,
  misses_problems,
}
use astra_sim_fsw.Timing.Valid.{IsValid, main-IsValid}

-- The values that are compared are in their order.
abbrev never : List (Option Value) → Bool
never vs = false

-- Evidence with the given ticks and longest step.
abbrev evidence : Value → Value → Fields
evidence ticks longest = object (
    (codes "schema", str (codes "astra-os.host-timing.v1"))
    ∷ (codes "claim_boundary", str (codes "one host"))
    ∷ (codes "ticks", ticks)
    ∷ (codes "mission_step_ms", int (pos 10))
    ∷ (codes "overload_every", int (pos 0))
    ∷ (codes "total_elapsed_ns", int (pos 900))
    ∷ (codes "mean_step_ns", float (pos 9) 1)
    ∷ (codes "min_step_ns", int (pos 1))
    ∷ (codes "p50_step_ns", float (pos 3) 1)
    ∷ (codes "p95_step_ns", int (pos 2))
    ∷ (codes "p99_step_ns", int (pos 5))
    ∷ (codes "max_step_ns", longest)
    ∷ (codes "scheduler_deadline_misses", int (pos 0))
    ∷ (codes "final_mode", str (codes "NOMINAL"))
    ∷ (codes "final_fault", str (codes "NONE"))
    ∷ [])

accepted : validate never (evidence (int (pos 100)) (int (pos 9))) (expectation false true) ≡ []
unfolding validate expectation differs_from lacks_claim number_problem number_problems as_int
    at_most_zero is_nonzero units scaled numbers insert_number sorted_numbers same_numbers
    is_unordered is_misordered has_special is_special misses_problems get equals_text codes text_eq
accepted = refl

-- The longest step lies below a percentile.
unordered :
    validate never (evidence (int (pos 100)) (int (pos 4))) (expectation false true)
    ≡ codes "timing percentile fields are not monotonic" ∷ []
unfolding validate expectation differs_from lacks_claim number_problem number_problems as_int
    at_most_zero is_nonzero units scaled numbers insert_number sorted_numbers same_numbers
    is_unordered is_misordered has_special is_special misses_problems get equals_text codes text_eq
unordered = refl

-- Ticks of 0 that are written as a float are not noticed.
zero_ticks : validate never (evidence (float (pos 0) 0) (int (pos 9))) (expectation false true) ≡ []
unfolding validate expectation differs_from lacks_claim number_problem number_problems as_int
    at_most_zero is_nonzero units scaled numbers insert_number sorted_numbers same_numbers
    is_unordered is_misordered has_special is_special misses_problems get equals_text codes text_eq
zero_ticks = refl

-- The longest step is infinite, and the values stay as they are when sorted.
infinite : validate never (evidence (int (pos 100)) (special infinity)) (some false) ≡ []
unfolding validate differs_from lacks_claim number_problem number_problems as_int at_most_zero
    is_nonzero is_misordered has_special is_special are_numbers is_number misses_problems get
    equals_text codes text_eq
infinite = refl

finite :
    has_special (map (λ f. get f (evidence (int (pos 100)) (int (pos 9)))) ordered_fields) ≡ false
unfolding has_special is_special get codes text_eq
finite = refl

main-IsValid_example :
    (main never false true (ok (obj (evidence (int (pos 100)) (int (pos 9))))) ≡ ok 0)
    ↔ IsValid (evidence (int (pos 100)) (int (pos 9))) (expectation false true)
main-IsValid_example = main-IsValid never false true (evidence (int (pos 100)) (int (pos 9))) finite
