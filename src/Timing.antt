-- ===== src/Timing.antt =====
-- tools/validate_timing_evidence.py: the checks of the timing evidence and `main`.
pub mod Ascending
pub mod Valid
mod Tests
use astra_sim_fsw.Base.{
  ℕ, ◌+◌, ◌-◌, ◌*◌, ◌^◌, Bool, true, false, not, ◌&&◌, ◌||◌, List, [], ◌∷◌, ◌++◌, map, Option, none,
  some, Text, codes, Result, ok, err, os_error, value_error, attribute_error, if◌then◌else◌,
}
use Prim.Native.String.{String}
use astra_sim_fsw.Base.Int.{ℤ, pos, negsuc, sub_ℕ, int_eq, ltb_ℤ}
use astra_sim_fsw.Base.Json.{
  Value, bool, int, float, special, minus_infinity, str, obj, Fields, get, equals_text,
}

abbrev pub required_numeric_fields : List Text
required_numeric_fields =
    codes "ticks"
    ∷ codes "mission_step_ms"
    ∷ codes "overload_every"
    ∷ codes "total_elapsed_ns"
    ∷ codes "mean_step_ns"
    ∷ codes "min_step_ns"
    ∷ codes "p50_step_ns"
    ∷ codes "p95_step_ns"
    ∷ codes "p99_step_ns"
    ∷ codes "max_step_ns"
    ∷ codes "scheduler_deadline_misses"
    ∷ []

abbrev pub ordered_fields : List Text
ordered_fields =
    codes "min_step_ns"
    ∷ codes "p50_step_ns"
    ∷ codes "p95_step_ns"
    ∷ codes "p99_step_ns"
    ∷ codes "max_step_ns"
    ∷ []

-- `payload.get(key) != text`
unfoldable pub differs_from : Text → Option Value → Bool
differs_from text none = true
differs_from text (some v) = not (equals_text text v)

abbrev problem : Bool → String → List Text
problem found message = if found then codes message ∷ [] else []

unfoldable pub lacks_claim : Option Value → Bool
lacks_claim (some (str (c ∷ s))) = false
lacks_claim _ = true

-- `value < 0`
abbrev is_negative : ℤ → Bool
is_negative (pos n) = false
is_negative (negsuc n) = true

-- The checks of a field that has to be a number; `bool` is none here.
unfoldable pub number_problem : Text → Option Value → List Text
number_problem field (some (int n)) =
    if is_negative n then (field ++ codes " must not be negative") ∷ [] else []
number_problem field (some (float m e)) =
    if is_negative m then (field ++ codes " must not be negative") ∷ [] else []
number_problem field (some (special minus_infinity)) = (field ++ codes " must not be negative") ∷ []
number_problem field (some (special _)) = []
number_problem field _ = (field ++ codes " must be numeric") ∷ []

unfoldable pub number_problems : Fields → List Text → List Text
unfolding number_problem
number_problems payload [] = []
number_problems payload (f ∷ fs) = number_problem f (get f payload) ++ number_problems payload fs

-- The value of an `int`, of which `bool` is a kind.
unfoldable pub as_int : Option Value → Option ℤ
as_int (some (int n)) = some n
as_int (some (bool b)) = some (pos (if b then 1 else 0))
as_int _ = none

-- `isinstance(ticks, int) and ticks <= 0`
unfoldable pub at_most_zero : Option ℤ → Bool
at_most_zero none = false
at_most_zero (some n) = not (ltb_ℤ (pos 0) n)

-- `isinstance(misses, int) and misses != 0`
unfoldable pub is_nonzero : Option ℤ → Bool
is_nonzero none = false
is_nonzero (some n) = not (int_eq n (pos 0))

unfoldable pub scaled : ℤ → ℕ → ℤ
scaled (pos n) k = pos (n * 2 ^ k)
scaled (negsuc n) k = sub_ℕ 0 ((n + 1) * 2 ^ k)

-- A number in units of 2 ^ -1074, of which every finite float is a multiple.
unfoldable pub units : Option Value → Option ℤ
unfolding scaled
units (some (int n)) = some (scaled n 1074)
units (some (bool b)) = some (scaled (pos (if b then 1 else 0)) 1074)
units (some (float m e)) = some (scaled m (1074 - e))
units _ = none

-- The numbers of a list of values, where all of them are numbers.
unfoldable pub numbers : List (Option Value) → Option (List ℤ)
unfolding units
numbers [] = some []
numbers (v ∷ vs) = elim (units v) [
  | none ↦ none
  | some n ↦ elim (numbers vs) [ none ↦ none | some ns ↦ some (n ∷ ns) ]
]

-- `sorted` of numbers, and `==` of two lists of numbers.
unfoldable pub insert_number : ℤ → List ℤ → List ℤ
insert_number n [] = n ∷ []
insert_number n (m ∷ ms) = if ltb_ℤ m n then m ∷ insert_number n ms else n ∷ m ∷ ms

unfoldable pub sorted_numbers : List ℤ → List ℤ
unfolding insert_number
sorted_numbers [] = []
sorted_numbers (n ∷ ns) = insert_number n (sorted_numbers ns)

unfoldable pub same_numbers : List ℤ → List ℤ → Bool
same_numbers [] [] = true
same_numbers (m ∷ ms) (n ∷ ns) = int_eq m n && same_numbers ms ns
same_numbers _ _ = false

-- All values are numbers, and do not ascend.
unfoldable pub is_unordered : Option (List ℤ) → Bool
unfolding sorted_numbers same_numbers
is_unordered none = false
is_unordered (some ns) = not (same_numbers ns (sorted_numbers ns))

-- NaN and the infinities, which are numbers too.
unfoldable pub is_special : Option Value → Bool
is_special (some (special _)) = true
is_special _ = false

unfoldable pub has_special : List (Option Value) → Bool
unfolding is_special
has_special [] = false
has_special (v ∷ vs) = is_special v || has_special vs

unfoldable pub is_number : Option Value → Bool
is_number (some (bool b)) = true
is_number (some (int n)) = true
is_number (some (float m e)) = true
is_number (some (special _)) = true
is_number _ = false

unfoldable pub are_numbers : List (Option Value) → Bool
unfolding is_number
are_numbers [] = true
are_numbers (v ∷ vs) = is_number v && are_numbers vs

-- Whether the values differ from their sorted list, where all are numbers. `differs` is what the
-- comparison gives where a value is NaN or infinite: the place of a NaN in a sorted list depends
-- on the sorting algorithm.
unfoldable pub is_misordered : (List (Option Value) → Bool) → List (Option Value) → Bool
unfolding has_special are_numbers is_unordered numbers
is_misordered differs vs =
    if has_special vs then are_numbers vs && differs vs else is_unordered (numbers vs)

-- The two checks of the deadline misses; the expectation is `expect_misses`.
unfoldable pub misses_problems : Option Bool → Option ℤ → List Text
unfolding at_most_zero is_nonzero
misses_problems none misses = []
misses_problems (some true) misses =
    problem (at_most_zero misses) "controlled-overrun campaign produced no deadline misses"
misses_problems (some false) misses =
    problem (is_nonzero misses) "nominal campaign produced scheduler deadline misses"

unfoldable pub validate : (List (Option Value) → Bool) → Fields → Option Bool → List Text
unfolding differs_from lacks_claim number_problems at_most_zero is_misordered misses_problems
validate differs payload expect_misses =
    problem (differs_from (codes "astra-os.host-timing.v1") (get (codes "schema") payload))
      "unexpected or missing schema"
    ++ (problem (lacks_claim (get (codes "claim_boundary") payload)) "missing claim boundary"
        ++ (number_problems payload required_numeric_fields
            ++ (problem (at_most_zero (as_int (get (codes "ticks") payload)))
                  "ticks must be greater than zero"
                ++ (problem (is_misordered differs (map (λ f. get f payload) ordered_fields))
                      "timing percentile fields are not monotonic"
                    ++ (problem (differs_from (codes "NOMINAL") (get (codes "final_mode") payload))
                          "timing campaign did not finish in NOMINAL"
                        ++ (problem
                              (differs_from (codes "NONE") (get (codes "final_fault") payload))
                              "timing campaign finished with an unexpected fault"
                            ++ misses_problems expect_misses
                                (as_int (get (codes "scheduler_deadline_misses") payload))))))))

-- `expect_misses` by the two options, which exclude each other.
unfoldable pub expectation : Bool → Bool → Option Bool
expectation true no_misses = some true
expectation false true = some false
expectation false false = none

unfoldable pub exit_of : List Text → ℕ
exit_of [] = 0
exit_of (problem ∷ problems) = 1

-- `main`, from what reading and parsing the file gives; a `JSONDecodeError` is a `value_error`.
unfoldable pub main : (List (Option Value) → Bool) → Bool → Bool → Result Value → Result ℕ
unfolding validate exit_of
main differs expect_misses expect_no_misses (err (os_error m)) = ok 1
main differs expect_misses expect_no_misses (err (value_error m)) = ok 1
main differs expect_misses expect_no_misses (err e) = err e
main differs expect_misses expect_no_misses (ok (obj payload)) =
    ok (exit_of (validate differs payload (expectation expect_misses expect_no_misses)))
main differs expect_misses expect_no_misses (ok _) = err attribute_error
