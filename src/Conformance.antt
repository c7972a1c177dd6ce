-- ===== src/Conformance.antt =====
-- tools/check_protocol_conformance.py: the reading of the headers, the comparisons and `main`.
pub mod Checks
pub mod Tables
pub mod Agreed
mod Tests
use astra_sim_fsw.Base.{
  ℕ, zero, suc, ◌+◌, ◌-◌, ◌*◌, Bool, true, false, not, ◌&&◌, ◌||◌, List, [], ◌∷◌, ◌++◌, Option,
  none, some, Text, codes, text_eq, split, strip, lstrip_of, is_space, is_digit, leb, ◌==◌, all,
  map, Result, ok, err, Exception, value_error, key_error, type_error, os_error, runtime_error,
  ◌>>=◌, if◌then◌else◌,
}
use astra_sim_fsw.Base.Int.{ℤ, pos}
use astra_sim_fsw.Base.Dict.{Dict, lookup, insert, has_key}
use astra_sim_fsw.Base.Json.{Value, obj, Fields, get, entries, equals_int}

-- What `re.search` finds in a header, by the path of the header and the name: the number behind a
-- constant, and what stands between the braces of an enum. Reading the file may raise.
-- `repr` is that of a text.
pub record Headers : Type 0 where
  pub constant : Text → Text → Result (Option Text)
  pub enum_body : Text → Text → Result (Option Text)
  pub repr : Text → Text

hex_value : ℕ → Option ℕ
hex_value c =
    if leb b'0' c && leb c b'9'
    then some (c - b'0')
    else if leb b'a' c && leb c b'f'
    then some (c - b'a' + 10)
    else if leb b'A' c && leb c b'F'
    then some (c - b'A' + 10)
    else none

-- The value of digits in a base, of which there is at least one.
unfoldable pub read_hex : ℕ → Text → Option ℕ
unfolding hex_value
read_hex n [] = some n
read_hex n (c ∷ s) = elim (hex_value c) [ none ↦ none | some d ↦ read_hex (n * 16 + d) s ]

unfoldable pub read_decimal : ℕ → Text → Option ℕ
unfolding is_digit
read_decimal n [] = some n
read_decimal n (c ∷ s) = elim (is_digit c) [
  | true ↦ read_decimal (n * 10 + (c - b'0')) s
  | false ↦ none
]

-- A text that both patterns take as a number, and its value by `int(text, 0)`, where a decimal
-- number begins with a zero only if it is 0.
unfoldable pub decimal_value : Text → Option (Result ℕ)
unfolding read_decimal
decimal_value [] = none
decimal_value (c ∷ s) = elim (read_decimal 0 (c ∷ s)) [
  | none ↦ none
  | some n ↦
      if c == b'0' && not (n == 0)
      then some (
          err (
            value_error
              (codes "invalid literal for int() with base 0: '" ++ ((c ∷ s) ++ codes "'"))))
      else some (ok n)
]

hex_text : Text → Option Text
hex_text (z ∷ x ∷ d ∷ s) = if z == b'0' && x == b'x' then some (d ∷ s) else none
hex_text s = none

unfoldable pub number_value : Text → Option (Result ℕ)
unfolding hex_text read_hex decimal_value
number_value s = elim (hex_text s) [
  | none ↦ decimal_value s
  | some digits ↦ elim (read_hex 0 digits) [ none ↦ none | some n ↦ some (ok n) ]
]

missing : Text → Text → Text → Exception
missing path kind name =
    value_error (path ++ (codes ": " ++ (kind ++ (name ++ codes " not found"))))

-- `parse_integer` of what the pattern found, which is a number.
integer_of : Text → Result ℕ
unfolding number_value
integer_of s = elim (number_value s) [ none ↦ err (value_error s) | some r ↦ r ]

unfoldable pub parse_cpp_constant : Headers → Text → Text → Result ℕ
unfolding integer_of missing
parse_cpp_constant headers path name = headers.constant path name >>= λ found. elim found [
  | none ↦ err (missing path (codes "constant ") name)
  | some s ↦ integer_of s
]

is_upper : ℕ → Bool
is_upper c = leb b'A' c && leb c b'Z'

is_name : ℕ → Bool
is_name c = (leb b'A' c && leb c b'Z') || is_digit c || c == b'_'

-- The number behind the name of an entry.
behind_name : Text → Option (Result ℕ)
unfolding number_value lstrip_of
behind_name s = elim (lstrip_of is_space s) [
  | [] ↦ none
  | c ∷ rest ↦ if c == b'=' then number_value (lstrip_of is_space rest) else none
]

-- The rest of a name, with what stands behind it.
name_from : Text → Text × Text
unfolding is_name
name_from [] = ([], [])
name_from (c ∷ s) =
    let (name, rest) = name_from s in if is_name c then (c ∷ name, rest) else ([], c ∷ s)

-- `fullmatch` of an entry: its name and its number.
unfoldable pub enum_entry : Text → Option (Text × Result ℕ)
unfolding is_upper name_from behind_name
enum_entry [] = none
enum_entry (c ∷ s) =
    let (name, rest) = name_from s in
    if is_upper c
    then elim (behind_name rest) [ none ↦ none | some r ↦ some (c ∷ name, r) ]
    else none

-- The entries of an enum, over the parts of its body; empty parts are left out.
unfoldable pub enum_entries : (Text → Exception) → Dict ℕ → List Text → Result (Dict ℕ)
unfolding enum_entry
enum_entries unsupported entries [] = ok entries
enum_entries unsupported entries ([] ∷ parts) = enum_entries unsupported entries parts
enum_entries unsupported entries ((c ∷ part) ∷ parts) = elim (enum_entry (c ∷ part)) [
  | none ↦ err (unsupported (c ∷ part))
  | some (name, r) ↦ r >>= λ n. enum_entries unsupported (insert name n entries) parts
]

unfoldable pub parse_cpp_enum : Headers → Text → Text → Result (Dict ℕ)
unfolding enum_entries missing
parse_cpp_enum headers path name = headers.enum_body path name >>= λ found. elim found [
  | none ↦ err (missing path (codes "enum ") name)
  | some body ↦
      enum_entries
        (λ part. value_error (
          path
          ++ (codes ": unsupported " ++ (name ++ (codes " entry syntax: " ++ headers.repr part)))))
        [] (map strip (split b',' body))
]

-- `{name: value for value, name in values.items()}`
unfoldable pub invert_from : Dict ℕ → List (ℕ × Text) → Dict ℕ
invert_from inverted [] = inverted
invert_from inverted ((value, name) ∷ values) = invert_from (insert name value inverted) values

unfoldable pub invert_integer_map : List (ℕ × Text) → Dict ℕ
unfolding invert_from
invert_integer_map values = invert_from [] values

-- What is compared with the manifest: a table or a number.
pub data Actual : Type 0 where
  table : Dict ℕ → Actual
  number : ℕ → Actual

unfoldable pub holds_number : Fields → Text × ℕ → Bool
holds_number d (name, n) = elim (get name d) [ none ↦ false | some v ↦ equals_int (pos n) v ]

-- `expected == actual`: two dictionaries are equal where they have the same keys with equal values.
unfoldable pub equals : Value → Actual → Bool
unfolding holds_number
equals v (number n) = equals_int (pos n) v
equals (obj d) (table t) = all (holds_number d) t && all (λ e. has_key e.0 t) (entries d)
equals v (table t) = false
