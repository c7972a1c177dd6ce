-- ===== src/Base/Json.antt =====
-- The values that `json.loads` and `yaml.safe_load` return.
use Prim.Native.Nat.{ℕ, ◌+◌, ◌*◌, ◌/◌, ◌^◌}
use mathlib.Core.Bool.{Bool, true, false, not}
use mathlib.Core.Option.{Option, none, some}
use mathlib.Core.List.{List, [], ◌∷◌}
use astra_sim_fsw.Base.Tests.{if◌then◌else◌}
use astra_sim_fsw.Base.Strings.{Text, codes, text_eq}
use astra_sim_fsw.Base.Int.{ℤ, pos, negsuc, sub_ℕ, int_eq, int_text}
use astra_sim_fsw.Base.Number.{parse_int}
use astra_sim_fsw.Base.Sort.{sorted, insert_sorted}
use astra_sim_fsw.Base.Errors.{Result, ok, err, type_error, value_error, overflow_error}

-- The floats that are no numbers or not finite, which `json.loads` reads from NaN, Infinity and
-- -Infinity.
pub data Special : Type 0 where
  nan infinity minus_infinity : Special

-- A finite float is `numerator / 2 ^ exponent`.
mutual
  pub data Value : Type 0 where
    null : Value
    bool : Bool → Value
    int : ℤ → Value
    float : ℤ → ℕ → Value
    special : Special → Value
    str : Text → Value
    arr : Items → Value
    obj : Fields → Value

  pub data Fields : Type 0 where
    end : Fields
    field : Text → Value → Fields → Fields

  pub data Items : Type 0 where
    nil : Items
    cons : Value → Items → Items

-- `d.get(key)`
unfoldable pub get : Text → Fields → Option Value
get key end = none
get key (field k v d) = if text_eq k key then some v else get key d

abbrev pub values : Items → List Value
values nil = []
values (cons v vs) = v ∷ values vs

abbrev pub items : List Value → Items
items [] = nil
items (v ∷ vs) = cons v (items vs)

-- The entries of an object.
abbrev pub entries : Fields → List (Text × Value)
entries end = []
entries (field k v d) = (k, v) ∷ entries d

-- `str(value)`; what it does on floats, lists and objects is the parameter.
unfoldable pub str_of : (Value → Text) → Value → Text
str_of repr null = codes "None"
str_of repr (bool true) = codes "True"
str_of repr (bool false) = codes "False"
str_of repr (int n) = int_text n
str_of repr (str s) = s
str_of repr v = repr v

unfoldable pub negative : ℕ → ℤ
negative n = sub_ℕ 0 n

unfoldable pub scale : ℤ → ℕ → ℤ
unfolding negative
scale (pos n) e = pos (n * 2 ^ e)
scale (negsuc n) e = negative ((n + 1) * 2 ^ e)

-- `value == n`, where Booleans are 0 and 1.
unfoldable pub equals_int : ℤ → Value → Bool
unfolding scale
equals_int n (int m) = int_eq m n
equals_int n (bool b) = int_eq (pos (if b then 1 else 0)) n
equals_int n (float m e) = int_eq m (scale n e)
equals_int n _ = false

-- `value == text`
unfoldable pub equals_text : Text → Value → Bool
equals_text s (str t) = text_eq t s
equals_text s _ = false

-- `int(value)`: a float is cut to its whole part, a text is parsed.
unfoldable pub int_of : Value → Result ℤ
unfolding negative
int_of (int n) = ok n
int_of (bool b) = ok (pos (if b then 1 else 0))
int_of (float (pos m) e) = ok (pos (m / 2 ^ e))
int_of (float (negsuc m) e) = ok (negative ((m + 1) / 2 ^ e))
int_of (special nan) = err (value_error (codes "cannot convert float NaN to integer"))
int_of (special _) = err overflow_error
int_of (str s) = parse_int s
int_of _ = err type_error

-- `bool(value)`
unfoldable pub truthy : Value → Bool
truthy null = false
truthy (bool b) = b
truthy (int n) = not (int_eq n (pos 0))
truthy (float m e) = not (int_eq m (pos 0))
truthy (str []) = false
truthy (arr nil) = false
truthy (obj end) = false
truthy _ = true

-- A `dict` by its entries in their order.
abbrev pub object : List (Text × Value) → Fields
object [] = end
object ((key, value) ∷ entries) = field key value (object entries)

-- What is read back from the text that `json.dumps(value, sort_keys=True)` writes.
unfoldable mutual
  unfolding sorted insert_sorted

  pub sort_keys : Value → Value
  sort_keys (arr vs) = arr (sort_items vs)
  sort_keys (obj d) = obj (object (sorted (λ e. e.0) (sort_fields d)))
  sort_keys v = v

  pub sort_fields : Fields → List (Text × Value)
  sort_fields end = []
  sort_fields (field k v d) = (k, sort_keys v) ∷ sort_fields d

  pub sort_items : Items → Items
  sort_items nil = nil
  sort_items (cons v vs) = cons (sort_keys v) (sort_items vs)
