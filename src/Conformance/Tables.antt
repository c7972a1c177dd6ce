-- ===== src/Conformance/Tables.antt =====
-- tools/check_protocol_conformance.py: two tables that are equal to one value of the manifest.
use astra_sim_fsw.Base.{
  ℕ, zero, suc, ◌*◌, ◌^◌, ◌<◌, Bool, true, false, ◌&&◌, [], ◌∷◌, ◌≡◌, refl, sym, ap, subst, ◌∙◌,
  inl, inr, some, Text, text_eq, text_eq_iff, all, arith, if◌then◌else◌, Bool-cases, Option-cases,
}
use native.Mathlib.Nat.{eq_of_mul-eq-mul_right}
use astra_sim_fsw.Base.Int.{pos}
use astra_sim_fsw.Base.Dict.{Dict, lookup, has_key}
use astra_sim_fsw.Base.Json.{
  Value, null, bool, int, float, special, str, arr, obj, Fields, end, field, get, entries,
  equals_int, scale,
}
use astra_sim_fsw.Timing.Ascending.{int_eq_iff}
use astra_sim_fsw.Conformance.{table, equals, holds_number}

-- Two tables with the same names and the same number behind each.
abbrev pub SameTable : Dict ℕ → Dict ℕ → Type 0
SameTable t u = (name : Text) → lookup name t ≡ lookup name u

pub pos_injective : (m n : ℕ) → pos m ≡ pos n → m ≡ n
pos_injective m n h = cc h

power_positive : (e : ℕ) → zero < 2 ^ e
power_positive zero = ground arith
power_positive (suc e) = ground (arith, power_positive e)

-- A value is equal to one number at most.
pub equals_int_unique :
    (m n : ℕ) (v : Value) → equals_int (pos m) v ≡ true → equals_int (pos n) v ≡ true → m ≡ n
unfolding equals_int scale
equals_int_unique m n (int k) h i =
    pos_injective m n (sym ((int_eq_iff k (pos m)).0 h) ∙ (int_eq_iff k (pos n)).0 i)
equals_int_unique m n (bool b) h i =
    let k = pos (if b then 1 else 0) in
    pos_injective m n (sym ((int_eq_iff k (pos m)).0 h) ∙ (int_eq_iff k (pos n)).0 i)
equals_int_unique m n (float k e) h i =
    let same = sym ((int_eq_iff k (pos (m * 2 ^ e))).0 h) ∙ (int_eq_iff k (pos (n * 2 ^ e))).0 i in
    eq_of_mul-eq-mul_right (2 ^ e) (power_positive e) m n
      (pos_injective (m * 2 ^ e) (n * 2 ^ e) same)
equals_int_unique m n (special k) h i = absurd (cc (h))
equals_int_unique m n null h i = absurd (cc (h))
equals_int_unique m n (str s) h i = absurd (cc (h))
equals_int_unique m n (arr s) h i = absurd (cc (h))
equals_int_unique m n (obj s) h i = absurd (cc (h))

pub and-true : (b c : Bool) → (b && c) ≡ true → (b ≡ true) × (c ≡ true)
and-true true c h = (refl, h)
and-true false c h = absurd (cc (h))

pub some_injective {ℓ} : {A : Type ℓ} {a b : A} → some a ≡ some b → a ≡ b
some_injective h = cc h

holds_number-get :
    (d : Fields) (name : Text) (n : ℕ)
    → holds_number d (name, n) ≡ true
    → (v : Value) × (get name d ≡ some v) × (equals_int (pos n) v ≡ true)
unfolding holds_number
holds_number-get d name n h = elim (Option-cases (get name d)) [
  | inl none_there ↦ absurd (cc (rw (holds_number, none_there) at h))
  | inr (v, there) ↦ (v, there, rw (holds_number, there) at h)
]

-- A number of a table that a value holds is at its name in the value.
pub lookup-get :
    (d : Fields) (t : Dict ℕ) (name : Text) (n : ℕ)
    → all (holds_number d) t ≡ true
    → lookup name t ≡ some n
    → (v : Value) × (get name d ≡ some v) × (equals_int (pos n) v ≡ true)
unfolding holds_number lookup
lookup-get d [] name n h there = absurd (cc (there))
lookup-get d ((k, m) ∷ t) name n h there =
    let (one, rest) = and-true (holds_number d (k, m)) (all (holds_number d) t) h in
    elim (Bool-cases (text_eq k name)) [
      | inl same ↦ holds_number-get d name n (
          subst (λ i. holds_number d (i, n) ≡ true) ((text_eq_iff k name).0 same)
            (subst (λ i. holds_number d (k, i) ≡ true)
              (some_injective {a = m} {b = n} (rw same at there)) one))
      | inr other ↦ lookup-get d t name n rest (rw other at there)
    ]

-- A name of the value is one of the table.
pub get-has_key :
    (d : Fields) (t : Dict ℕ) (name : Text) (v : Value)
    → all (λ e. has_key e.0 t) (entries d) ≡ true
    → get name d ≡ some v
    → has_key name t ≡ true
unfolding get
get-has_key end t name v h there = absurd (cc (there))
get-has_key (field k w d) t name v h there = elim (Bool-cases (text_eq k name)) [
  | inl same ↦
      subst (λ i. has_key i t ≡ true) ((text_eq_iff k name).0 same)
        (and-true (has_key k t) (all (λ e. has_key e.0 t) (entries d)) h).0
  | inr other ↦
      get-has_key d t name v (and-true (has_key k t) (all (λ e. has_key e.0 t) (entries d)) h).1
        (rw other at there)
]

has_key-some :
    (t : Dict ℕ) (name : Text) → has_key name t ≡ true → (n : ℕ) × (lookup name t ≡ some n)
unfolding has_key lookup
has_key-some [] name h = absurd (cc (h))
has_key-some ((k, m) ∷ t) name h = elim (Bool-cases (text_eq k name)) [
  | inl same ↦ (m, rw same refl)
  | inr other ↦ rw other (has_key-some t name (rw other at h))
]

-- What one table has at a name, the other has.
lookup-carried :
    (d : Fields) (t u : Dict ℕ) (name : Text) (n : ℕ)
    → all (holds_number d) t ≡ true
    → all (holds_number d) u ≡ true
    → all (λ e. has_key e.0 u) (entries d) ≡ true
    → lookup name t ≡ some n
    → lookup name u ≡ some n
lookup-carried d t u name n holds_t holds_u names_u there =
    let (v, in_value, is_n) = lookup-get d t name n holds_t there in
    let (m, in_other) = has_key-some u name (get-has_key d u name v names_u in_value) in
    let (w, in_value', is_m) = lookup-get d u name m holds_u in_other in
    let is_m' =
      subst (λ (x : Value). equals_int (pos m) x ≡ true)
        (some_injective {a = w} {b = v} (sym in_value' ∙ in_value)) is_m in
    in_other ∙ ap some (equals_int_unique m n v is_m' is_n)

-- Two tables that are equal to one value have the same numbers behind the same names.
pub equals-SameTable :
    (v : Value) (t u : Dict ℕ)
    → equals v (table t) ≡ true
    → equals v (table u) ≡ true
    → SameTable t u
unfolding equals
equals-SameTable (obj d) t u h i name =
    let (holds_t, names_t) =
      and-true (all (holds_number d) t) (all (λ e. has_key e.0 t) (entries d)) h in
    let (holds_u, names_u) =
      and-true (all (holds_number d) u) (all (λ e. has_key e.0 u) (entries d)) i in
    elim (Option-cases (lookup name t)) [
      | inr (n, there) ↦ there ∙ sym (lookup-carried d t u name n holds_t holds_u names_u there)
      | inl absent ↦ elim (Option-cases (lookup name u)) [
        | inl absent' ↦ absent ∙ sym absent'
        | inr (n, there) ↦
            absurd (cc (absent, lookup-carried d u t name n holds_u holds_t names_t there))
      ]
    ]
equals-SameTable null t u h i name = absurd (cc (h))
equals-SameTable (bool b) t u h i name = absurd (cc (h))
equals-SameTable (int b) t u h i name = absurd (cc (h))
equals-SameTable (float b e) t u h i name = absurd (cc (h))
equals-SameTable (special b) t u h i name = absurd (cc (h))
equals-SameTable (str b) t u h i name = absurd (cc (h))
equals-SameTable (arr b) t u h i name = absurd (cc (h))
