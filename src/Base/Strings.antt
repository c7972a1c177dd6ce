-- ===== src/Base/Strings.antt =====
-- Python's `str` as a list of code points, and the methods of `str` that the tools call.
use Prim.Native.Nat.{ℕ, zero, suc, ◌+◌, ◌-◌, ◌/◌, ◌%◌}
use Prim.Native.Char.{code}
use Prim.Native.String.{String}
use mathlib.Core.Path.{◌≡◌, refl, sym, subst}
use mathlib.Core.Logic.{inl, inr, ◌↔◌, ◌≢◌}
use mathlib.Core.Bool.{Bool, true, false, ◌&&◌, ◌||◌}
use mathlib.Core.Option.{Option, none, some}
use mathlib.Core.List.{List, [], ◌∷◌, ◌++◌, reverse, reverse-append, reverse-reverse}
use native.Mathlib.Omega.{arith}
use astra_sim_fsw.Base.Tests.{Bool-cases, leb, ltb, ◌==◌, if◌then◌else◌}
use astra_sim_fsw.Base.Lists.{length, All, All-append}

abbrev pub Text : Type 0
Text = List ℕ

-- A literal. Shut in proofs, so that a long message stays one name.
unfoldable pub codes : String → Text
codes String.[] = []
codes (String.◌∷◌ c s) = code c ∷ codes s

unfoldable pub text_eq : Text → Text → Bool
text_eq [] [] = true
text_eq (x ∷ xs) (y ∷ ys) = x == y && text_eq xs ys
text_eq _ _ = false

pub text_eq_iff : (a b : Text) → (text_eq a b ≡ true) ↔ (a ≡ b)
unfolding text_eq
text_eq_iff (x ∷ a) (y ∷ b) = ground (arith, text_eq_iff a b)
text_eq_iff _ _ = ground arith

pub text_eq_refl : (a : Text) → text_eq a a ≡ true
text_eq_refl a = (text_eq_iff a a).1 refl

pub text_eq_ne : (a b : Text) → a ≢ b → text_eq a b ≡ false
text_eq_ne a b ne = elim (Bool-cases (text_eq a b)) [
  | inl same ↦ absurd (ne ((text_eq_iff a b).0 same))
  | inr e ↦ e
]

-- `a <= b` on texts, by code points.
unfoldable pub text_leb : Text → Text → Bool
text_leb [] ys = true
text_leb (x ∷ xs) [] = false
text_leb (x ∷ xs) (y ∷ ys) = ltb x y || (x == y && text_leb xs ys)

-- `s.startswith(p)`
unfoldable pub starts_with : Text → Text → Bool
starts_with s [] = true
starts_with [] (c ∷ p) = false
starts_with (x ∷ s) (c ∷ p) = x == c && starts_with s p

-- `p in s`
unfoldable pub contains_text : Text → Text → Bool
unfolding starts_with
contains_text p [] = starts_with [] p
contains_text p (c ∷ s) = starts_with (c ∷ s) p || contains_text p s

-- The characters for which `str.isspace` holds.
unfoldable pub is_space : ℕ → Bool
is_space c =
    (leb 9 c && leb c 13)
    || (leb 28 c && leb c 32)
    || c == 0x85
    || c == 0xa0
    || c == 0x1680
    || (leb 0x2000 c && leb c 0x200a)
    || c == 0x2028
    || c == 0x2029
    || c == 0x202f
    || c == 0x205f
    || c == 0x3000

-- `s.lstrip()` for a class of characters, `s.rstrip()` and `s.strip()`
unfoldable pub lstrip_of : (ℕ → Bool) → Text → Text
lstrip_of p [] = []
lstrip_of p (c ∷ s) = if p c then lstrip_of p s else c ∷ s

unfoldable pub rstrip_of : (ℕ → Bool) → Text → Text
unfolding lstrip_of
rstrip_of p s = reverse (lstrip_of p (reverse s))

unfoldable pub strip_of : (ℕ → Bool) → Text → Text
unfolding lstrip_of rstrip_of
strip_of p s = rstrip_of p (lstrip_of p s)

unfoldable pub strip : Text → Text
unfolding strip_of
strip = strip_of is_space

-- `s.partition(sep)` for a separator of one character: `none` when it does not occur.
unfoldable pub partition : ℕ → Text → Option (Text × Text)
partition sep [] = none
partition sep (c ∷ s) =
    let rest = partition sep s in
    if c == sep then some ([], s) else elim rest [ none ↦ none | some (a, b) ↦ some (c ∷ a, b) ]

-- `s.split(sep)` for a separator of one character.
split_cons : ℕ → List Text → List Text
split_cons c [] = (c ∷ []) ∷ []
split_cons c (w ∷ ws) = (c ∷ w) ∷ ws

unfoldable pub split : ℕ → Text → List Text
unfolding split_cons
split sep [] = [] ∷ []
split sep (c ∷ s) = let rest = split sep s in if c == sep then [] ∷ rest else split_cons c rest

-- `sep.join(parts)`
unfoldable pub join : Text → List Text → Text
join sep [] = []
join sep (w ∷ []) = w
join sep (w ∷ v ∷ ws) = w ++ (sep ++ join sep (v ∷ ws))

-- `str(n)` of a number; the fuel is the number itself.
unfoldable pub decimal_loop : ℕ → ℕ → Text → Text
decimal_loop zero n acc = acc
decimal_loop (suc fuel) n acc = elim (n / 10 == 0) [
  | true ↦ (n % 10 + b'0') ∷ acc
  | false ↦ decimal_loop fuel (n / 10) ((n % 10 + b'0') ∷ acc)
]

unfoldable pub decimal : ℕ → Text
unfolding decimal_loop
decimal n = decimal_loop (suc n) n []

-- `f"{n:0wd}"`
unfoldable pub zeros : ℕ → Text
zeros zero = []
zeros (suc n) = b'0' ∷ zeros n

unfoldable pub zero_padded : ℕ → ℕ → Text
unfolding zeros
zero_padded w n = zeros (w - length (decimal n)) ++ decimal n

-- `f"{n:0wX}"` of a number below 16 ^ w.
hex_digit : ℕ → ℕ
hex_digit d = if ltb d 10 then d + b'0' else d - 10 + b'A'

unfoldable pub hex : ℕ → ℕ → Text
unfolding hex_digit
hex zero n = []
hex (suc w) n = hex w (n / 16) ++ (hex_digit (n % 16) ∷ [])

unfoldable pub is_digit : ℕ → Bool
is_digit c = leb b'0' c && leb c b'9'

All-reverse : (P : ℕ → Type 0) (xs : Text) → All P xs → All P (reverse xs)
All-reverse P [] h = tt
All-reverse P (x ∷ xs) (hx, h) =
    subst (All P) (sym (reverse-append (x ∷ []) xs))
      (All-append P (reverse xs) (x ∷ []) (All-reverse P xs h) (hx, tt))

lstrip_of-none : (p : ℕ → Bool) (s : Text) → All (λ c. p c ≡ false) s → lstrip_of p s ≡ s
unfolding lstrip_of
lstrip_of-none p [] h = refl
lstrip_of-none p (c ∷ s) (hc, h) = rw hc

-- A text with no white space is its own `strip`.
pub strip-none : (s : Text) → All (λ c. is_space c ≡ false) s → strip s ≡ s
unfolding strip strip_of rstrip_of
strip-none s h =
    let back = lstrip_of-none is_space (reverse s) (All-reverse _ s h) in
    rw (lstrip_of-none is_space s h, back) (reverse-reverse s)
