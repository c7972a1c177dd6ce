-- ===== src/Requirements/Entries.antt =====
-- The entries of a baseline, sorted and read back.
use astra_sim_fsw.Base.{
  true, ◌||◌, List, [], ◌∷◌, ◌≡◌, refl, sym, ap, subst, ◌∙◌, inl, inr, arith, some, Text, text_eq,
  text_eq_iff, All, Bool-cases,
}
use astra_sim_fsw.Base.Dict.{Dict, lookup, has_key, keys}
use astra_sim_fsw.Base.Sort.{sorted, insert_sorted, All-sorted_iff}
use astra_sim_fsw.Base.Json.{Value, str, object, sort_keys, sort_fields, entries}
use astra_sim_fsw.Repository.{contains}
use astra_sim_fsw.Repository.Source.{contains_self, pointwise}

abbrev pub key_of : Text × Value → Text
key_of e = e.0

-- A property of all entries holds of one that is found.
pub lookup-All :
    (P : Text × Value → Type 0) (k : Text) (d : Dict Value) (v : Value)
    → All P d
    → lookup k d ≡ some v
    → P (k, v)
unfolding lookup
lookup-All P k [] v all found = absurd (cc (found))
lookup-All P k ((j, w) ∷ d) v (one, all) found = elim (Bool-cases (text_eq j k)) [
  | inl same ↦
      let value : w ≡ v = cc (rw same at found) in
      subst (λ t. P (t, v)) ((text_eq_iff j k).0 same) (subst (λ x. P (j, x)) value one)
  | inr other ↦ lookup-All P k d v all (rw (lookup, other) at found)
]

pub has_key-insert_sorted :
    (k : Text) (e : Text × Value) (d : Dict Value)
    → has_key k (insert_sorted key_of e d) ≡ has_key k (e ∷ d)
unfolding insert_sorted has_key
has_key-insert_sorted k e [] = refl
has_key-insert_sorted k e (f ∷ d) = ground (arith, has_key-insert_sorted k e d)

pub has_key-sorted : (k : Text) (d : Dict Value) → has_key k (sorted key_of d) ≡ has_key k d
unfolding sorted has_key
has_key-sorted k [] = refl
has_key-sorted k (e ∷ d) =
    has_key-insert_sorted k e (sorted key_of d) ∙ ap (λ b. text_eq e.0 k || b) (has_key-sorted k d)

-- Texts under keys are read back as they are.
abbrev pub IsText : Text × Value → Type 0
IsText e = (s : Text) × (e.1 ≡ str s)

pub sort_fields-object : (d : Dict Value) → All IsText d → sort_fields (object d) ≡ d
unfolding sort_fields sort_keys
sort_fields-object [] all = refl
sort_fields-object ((k, v) ∷ d) ((s, e), all) =
    rw e (ap (◌∷◌ (k, str s)) (sort_fields-object d all))

pub entries-object : (d : Dict Value) → entries (object d) ≡ d
entries-object [] = refl
entries-object ((k, v) ∷ d) = ap (◌∷◌ (k, v)) (entries-object d)

pub has_key-keys {ℓ} : {V : Type ℓ} (k : Text) (d : Dict V) → contains k (keys d) ≡ has_key k d
unfolding contains has_key
has_key-keys k [] = refl
has_key-keys k ((j, v) ∷ d) = ap (λ b. text_eq j k || b) (has_key-keys k d)

-- Every key of a dictionary is one of its keys.
pub keys_known {ℓ} : {V : Type ℓ} (d : Dict V) → All (λ k. has_key k d ≡ true) (keys d)
keys_known d =
    pointwise (λ k. contains k (keys d) ≡ true) (λ k. has_key k d ≡ true) (keys d)
      (λ k h. sym (has_key-keys k d) ∙ h) (contains_self (keys d))

pub keys_sorted : (ks : List Text) → All (λ k. contains k (sorted (λ i. i) ks) ≡ true) ks
keys_sorted ks =
    (All-sorted_iff (λ i. i) (λ k. contains k (sorted (λ i. i) ks) ≡ true) ks).0
      (contains_self (sorted (λ i. i) ks))

-- What holds of each entry's key holds of all keys.
pub All-keys : (P : Text → Type 0) (d : Dict Value) → All (λ e. P e.0) d → All P (keys d)
All-keys P [] all = tt
All-keys P ((k, v) ∷ d) (one, all) = (one, All-keys P d all)

pub keys-All : (P : Text → Type 0) (d : Dict Value) → All P (keys d) → All (λ e. P e.0) d
keys-All P [] all = tt
keys-All P ((k, v) ∷ d) (one, all) = (one, keys-All P d all)

pub All-sorted-keys :
    (P : Text → Type 0) (d : Dict Value) → All (λ e. P e.0) d → All P (keys (sorted key_of d))
All-sorted-keys P d all =
    All-keys P (sorted key_of d) ((All-sorted_iff key_of (λ e. P e.0) d).1 all)
