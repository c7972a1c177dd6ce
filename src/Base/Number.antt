-- ===== src/Base/Number.antt =====
-- `int(text)` in base ten, and that it reads what `str` writes.
use Prim.Native.Nat.{ℕ, zero, suc, ◌+◌, ◌-◌, ◌*◌, ◌/◌, ◌%◌, ◌≤◌}
use mathlib.Core.Path.{◌≡◌, sym, ap, ◌∙◌}
use mathlib.Core.Bool.{Bool, true, false, ◌&&◌}
use mathlib.Core.Option.{Option, none, some}
use mathlib.Core.List.{[], ◌∷◌, ◌++◌}
use native.Mathlib.Omega.{arith}
use astra_sim_fsw.Base.Tests.{Bool-cases, ==_ne, ◌==◌, if◌then◌else◌}
use astra_sim_fsw.Base.Lists.{All}
use mathlib.Core.Logic.{inl, inr}
use astra_sim_fsw.Base.Strings.{
  Text, codes, is_digit, is_space, strip, strip-none, decimal, decimal_loop,
}
use astra_sim_fsw.Base.Int.{ℤ, pos, negsuc}
use astra_sim_fsw.Base.Errors.{Result, ok, err, value_error}

-- The digits, with single underscores between them; the flag tells that a digit came last.
unfoldable pub read_digits : ℕ → Bool → Text → Option ℕ
unfolding is_digit
read_digits n true [] = some n
read_digits n false [] = none
read_digits n after (c ∷ s) = elim (is_digit c) [
  | true ↦ read_digits (n * 10 + (c - b'0')) true s
  | false ↦ elim (after && c == b'_') [ true ↦ read_digits n false s | false ↦ none ]
]

-- The number behind its sign; `none` for what is no number.
negated : Option ℕ → Option ℤ
negated none = none
negated (some zero) = some (pos 0)
negated (some (suc n)) = some (negsuc n)

positive : Option ℕ → Option ℤ
positive none = none
positive (some n) = some (pos n)

read_int : Text → Option ℤ
unfolding negated positive read_digits
read_int [] = none
read_int (c ∷ s) =
    if c == b'-'
    then negated (read_digits 0 false s)
    else if c == b'+'
    then positive (read_digits 0 false s)
    else positive (read_digits 0 false (c ∷ s))

or_invalid : Text → Option ℤ → Result ℤ
or_invalid s none =
    err (value_error (codes "invalid literal for int() with base 10: '" ++ (s ++ codes "'")))
or_invalid s (some n) = ok n

unfoldable pub parse_int : Text → Result ℤ
unfolding read_int strip or_invalid
parse_int s = or_invalid s (read_int (strip s))

decimal_loop_step :
    (fuel n : ℕ) (acc : Text)
    → decimal_loop (suc fuel) n acc ≡ (
        if n / 10 == 0
        then (n % 10 + b'0') ∷ acc
        else decimal_loop fuel (n / 10) ((n % 10 + b'0') ∷ acc))
unfolding decimal_loop
decimal_loop_step fuel n acc = ground arith

digit-not_space : (n : ℕ) → is_space (n % 10 + b'0') ≡ false
unfolding is_space
digit-not_space n = ground arith

decimal_loop-not_space :
    (fuel n : ℕ) (acc : Text)
    → All (λ c. is_space c ≡ false) acc
    → All (λ c. is_space c ≡ false) (decimal_loop fuel n acc)
decimal_loop-not_space zero n acc h = unfold decimal_loop in h
decimal_loop-not_space (suc fuel) n acc h = rw decimal_loop_step (elim (Bool-cases (n / 10 == 0)) [
  | inl last ↦ rw last (digit-not_space n, h)
  | inr more ↦ rw more (decimal_loop-not_space fuel (n / 10) _ (digit-not_space n, h))
])

-- The digits of a number hold no white space.
pub decimal-not_space : (n : ℕ) → All (λ c. is_space c ≡ false) (decimal n)
unfolding decimal
decimal-not_space n = decimal_loop-not_space (suc n) n [] tt

read_digit :
    (m n : ℕ) (after : Bool) (acc : Text)
    → read_digits m after ((n % 10 + b'0') ∷ acc) ≡ read_digits (m * 10 + n % 10) true acc
unfolding read_digits
read_digit m n after acc =
    let value : n % 10 + b'0' - b'0' ≡ n % 10 = omega arith in ground (arith, value)

read_digits-decimal_loop :
    (fuel n : ℕ) (acc : Text)
    → n ≤ fuel
    → read_digits 0 false (decimal_loop (suc fuel) n acc) ≡ read_digits n true acc
read_digits-decimal_loop zero n acc h =
    let e : n ≡ 0 = omega arith in rw (e, decimal_loop_step) (read_digit 0 0 false acc)
read_digits-decimal_loop (suc fuel) n acc h =
    rw decimal_loop_step (elim (Bool-cases (n / 10 == 0)) [
      | inl last ↦
          let e : 0 * 10 + n % 10 ≡ n = ground arith in
          rw last (read_digit 0 n false acc ∙ ap (λ (m : ℕ). read_digits m true acc) e)
      | inr more ↦
          let e : n / 10 * 10 + n % 10 ≡ n = omega arith in
          let ih = read_digits-decimal_loop fuel (n / 10) ((n % 10 + b'0') ∷ acc) (omega arith) in
          rw more (ih ∙ read_digit (n / 10) n true acc ∙ ap (λ (m : ℕ). read_digits m true acc) e)
    ])

decimal_loop_head :
    (fuel n : ℕ) (acc : Text)
    → (d : ℕ) × (rest : Text) × (decimal_loop (suc fuel) n acc ≡ (d % 10 + b'0') ∷ rest)
decimal_loop_head zero n acc = (n, acc, unfold decimal_loop in ground arith)
decimal_loop_head (suc fuel) n acc = elim (Bool-cases (n / 10 == 0)) [
  | inl last ↦ (n, acc, decimal_loop_step (suc fuel) n acc ∙ rw last)
  | inr more ↦
      let (d, rest, e) = decimal_loop_head fuel (n / 10) ((n % 10 + b'0') ∷ acc) in
      (d, rest, decimal_loop_step (suc fuel) n acc ∙ rw more e)
]

read_int_digits :
    (d : ℕ) (rest : Text)
    → read_int ((d % 10 + b'0') ∷ rest) ≡ positive (read_digits 0 false ((d % 10 + b'0') ∷ rest))
unfolding read_int
read_int_digits d rest =
    let no_minus = ==_ne (d % 10 + b'0') b'-' (λ e. omega arith) in
    let no_plus = ==_ne (d % 10 + b'0') b'+' (λ e. omega arith) in rw (no_minus, no_plus)

-- `int` reads back what `str` writes.
pub parse_int-decimal : (n : ℕ) → parse_int (decimal n) ≡ ok (pos n)
unfolding parse_int decimal
parse_int-decimal n =
    let (d, rest, e) = decimal_loop_head n n [] in
    let digits = read_digits-decimal_loop n n [] (omega arith) in
    let read =
      ap read_int e
      ∙ read_int_digits d rest
      ∙ ap (λ (s : Text). positive (read_digits 0 false s)) (sym e)
      ∙ ap positive digits in
    rw (strip-none (decimal_loop (suc n) n []) (decimal-not_space n), read)
