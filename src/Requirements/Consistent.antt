-- ===== src/Requirements/Consistent.antt =====
-- When the matrix and the requirements agree.
use astra_sim_fsw.Base.{
  Bool, true, false, not, List, [], ◌∷◌, ◌++◌, map, ◌≡◌, ◌↔◌, refl, inl, inr, Option, none, some,
  Text, text_eq, text_eq_iff, filter, All, Bool-cases,
}
use astra_sim_fsw.Base.Dict.{Dict, lookup, has_key, has_key-lookup, keys}
use astra_sim_fsw.Base.Sort.{All-sorted_iff}
use astra_sim_fsw.Requirements.{Requirement, MatrixEntry}
use astra_sim_fsw.Requirements.Problems.{
  sorted_texts, keys_without, common_keys, collect, mismatch, matrix_consistency_problems,
}

pub append-nil_iff : (xs ys : List Text) → (xs ++ ys ≡ []) ↔ ((xs ≡ []) × (ys ≡ []))
append-nil_iff [] ys = (λ h. (refl, h), λ h. h.1)
append-nil_iff (x ∷ xs) ys = (λ h. absurd (cc h), λ h. absurd (cc (h.0)))

map-nil_iff : (f : Text → Text) (xs : List Text) → (map f xs ≡ []) ↔ All (λ x. ⊥) xs
map-nil_iff f [] = (λ h. tt, λ h. refl)
map-nil_iff f (x ∷ xs) = (λ h. absurd (cc h), λ h. absurd h.0)

collect-nil_iff :
    (f : Text → List Text) (xs : List Text) → (collect f xs ≡ []) ↔ All (λ x. f x ≡ []) xs
unfolding collect
collect-nil_iff f [] = (λ h. tt, λ h. refl)
collect-nil_iff f (x ∷ xs) =
    let (there, back) = append-nil_iff (f x) (collect f xs) in
    let (on, off) = collect-nil_iff f xs in
    (λ h. ((there h).0, on (there h).1), λ h. back (h.0, off h.1))

All-filter_iff :
    (p : Text → Bool) (P : Text → Type 0) (xs : List Text)
    → All P (filter p xs) ↔ All (λ x. p x ≡ true → P x) xs
All-filter_iff p P [] = (λ h. tt, λ h. tt)
All-filter_iff p P (x ∷ xs) =
    let (there, back) = All-filter_iff p P xs in
    elim (Bool-cases (p x)) [
      | inl e ↦ rw e (λ h. (λ z. h.0, there h.1), λ h. (h.0 refl, back h.1))
      | inr e ↦ rw e (λ h. (λ z. absurd (cc z), there h), λ h. back h.1)
    ]

-- The statuses of the requirement and of the entry under an identifier agree, where both are.
abbrev pub Agree : Dict Requirement → Dict MatrixEntry → Text → Type 0
Agree requirements matrix i =
    (r : Requirement) (e : MatrixEntry)
    → lookup i requirements ≡ some r
    → lookup i matrix ≡ some e
    → r.status ≡ e.status

-- Each requirement has an entry in the matrix, each entry a requirement, and the statuses agree.
pub record IsConsistent (requirements : Dict Requirement) (matrix : Dict MatrixEntry) : Type 0 where
  pub allocated : All (λ i. has_key i matrix ≡ true) (keys requirements)
  pub known : All (λ i. has_key i requirements ≡ true) (keys matrix)
  pub agree : All (Agree requirements matrix) (keys requirements)

not_false_iff : (b : Bool) → (not b ≡ true → ⊥) ↔ (b ≡ true)
not_false_iff true = (λ h. refl, λ h z. cc z)
not_false_iff false = (λ h. absurd (h refl), λ h z. cc h)

mismatch-nil :
    (i : Text) (r : Requirement) (e : MatrixEntry)
    → (mismatch i (some r) (some e) ≡ []) ↔ (r.status ≡ e.status)
unfolding mismatch
mismatch-nil i r e = elim (Bool-cases (text_eq r.status e.status)) [
  | inl same ↦ rw same (λ h. (text_eq_iff _ _).0 same, λ h. refl)
  | inr other ↦ rw other (λ h. absurd (cc h), λ h. absurd (cc (other, (text_eq_iff _ _).1 h)))
]

pub has_key-some {ℓ} :
    {V : Type ℓ} (i : Text) (matrix : Dict V) {e : V}
    → lookup i matrix ≡ some e
    → has_key i matrix ≡ true
has_key-some i matrix h = elim (Bool-cases (has_key i matrix)) [
  | inl there ↦ there
  | inr missing ↦ absurd (cc (h, has_key-lookup i matrix missing))
]

pub has_key-found {ℓ} :
    {V : Type ℓ} (k : Text) (d : Dict V) → has_key k d ≡ true → (v : V) × (lookup k d ≡ some v)
unfolding has_key lookup
has_key-found k [] h = absurd (cc h)
has_key-found k ((j, v) ∷ d) h = elim (Bool-cases (text_eq j k)) [
  | inl same ↦ (v, rw same refl)
  | inr other ↦ let (w, found) = has_key-found k d (rw other at h) in (w, rw other found)
]

mismatch-Agree :
    (requirements : Dict Requirement) (matrix : Dict MatrixEntry) (i : Text)
    → (has_key i matrix ≡ true → mismatch i (lookup i requirements) (lookup i matrix) ≡ [])
      ↔ Agree requirements matrix i
unfolding mismatch
mismatch-Agree requirements matrix i =
    (there, back (lookup i requirements) (lookup i matrix) refl refl)
  where
    there :
        (has_key i matrix ≡ true → mismatch i (lookup i requirements) (lookup i matrix) ≡ [])
        → Agree requirements matrix i
    there h r e found entry =
        (mismatch-nil i r e).0 (rw (found, entry) at (h (has_key-some i matrix entry)))

    back :
        (r : Option Requirement) (e : Option MatrixEntry)
        → lookup i requirements ≡ r
        → lookup i matrix ≡ e
        → Agree requirements matrix i
        → has_key i matrix ≡ true
        → mismatch i (lookup i requirements) (lookup i matrix) ≡ []
    back none e found entry agree has = rw found refl
    back (some r) none found entry agree has = rw (found, entry) refl
    back (some r) (some e) found entry agree has =
        rw (found, entry) ((mismatch-nil i r e).1 (agree r e found entry))

each_iff : (P Q : Text → Type 0) → ((i : Text) → P i ↔ Q i) → (xs : List Text) → All P xs ↔ All Q xs
each_iff P Q each [] = (λ h. h, λ h. h)
each_iff P Q each (x ∷ xs) =
    let (there, back) = each_iff P Q each xs in
    (λ h. ((each x).0 h.0, there h.1), λ h. ((each x).1 h.0, back h.1))

-- No key is left over exactly when the other dictionary has them all.
pub keys_without-nil {ℓ κ} :
    {V : Type ℓ} {W : Type κ} (f : Text → Text) (a : Dict V) (b : Dict W)
    → (map f (keys_without a b) ≡ []) ↔ All (λ i. has_key i b ≡ true) (keys a)
unfolding keys_without sorted_texts
keys_without-nil f a b =
    let (m, m') = map-nil_iff f (keys_without a b) in
    let (s, s') = All-sorted_iff (λ t. t) (λ i. ⊥) (filter (λ k. not (has_key k b)) (keys a)) in
    let (p, p') = All-filter_iff (λ k. not (has_key k b)) (λ i. ⊥) (keys a) in
    let (q, q') =
      each_iff (λ i. not (has_key i b) ≡ true → ⊥) (λ i. has_key i b ≡ true)
        (λ i. not_false_iff (has_key i b)) (keys a) in
    (λ h. q (p (s (m h))), λ h. m' (s' (p' (q' h))))

-- What is collected over the common keys is empty exactly when a property holds of all keys.
pub common_keys-nil {ℓ κ} :
    {V : Type ℓ} {W : Type κ} (f : Text → List Text) (a : Dict V) (b : Dict W) (P : Text → Type 0)
    → ((i : Text) → (has_key i b ≡ true → f i ≡ []) ↔ P i)
    → (collect f (common_keys a b) ≡ []) ↔ All P (keys a)
unfolding common_keys sorted_texts
common_keys-nil f a b P each =
    let (c, c') = collect-nil_iff f (common_keys a b) in
    let (s, s') = All-sorted_iff (λ t. t) (λ i. f i ≡ []) (filter (λ k. has_key k b) (keys a)) in
    let (p, p') = All-filter_iff (λ k. has_key k b) (λ i. f i ≡ []) (keys a) in
    let (q, q') = each_iff (λ i. has_key i b ≡ true → f i ≡ []) P each (keys a) in
    (λ h. q (p (s (c h))), λ h. c' (s' (p' (q' h))))

-- The check of the matrix reports nothing exactly when each requirement has an entry, each entry
-- a requirement, and the status of each requirement is that of its entry.
pub matrix_consistency_problems_iff :
    (requirements : Dict Requirement) (matrix : Dict MatrixEntry)
    → (matrix_consistency_problems requirements matrix ≡ []) ↔ IsConsistent requirements matrix
unfolding matrix_consistency_problems
matrix_consistency_problems_iff requirements matrix =
    let (first, first') = append-nil_iff _ _ in
    let (second, second') = append-nil_iff _ _ in
    let (a, a') = keys_without-nil _ requirements matrix in
    let (k, k') = keys_without-nil _ matrix requirements in
    let (g, g') =
      common_keys-nil _ requirements matrix (Agree requirements matrix)
        (mismatch-Agree requirements matrix) in
    (
      (λ h. record {
        allocated = a (first h).0;
        known = k (second (first h).1).0;
        agree = g (second (first h).1).1;
      }),
      (λ c. first' (a' c.allocated, second' (k' c.known, g' c.agree))),
    )
