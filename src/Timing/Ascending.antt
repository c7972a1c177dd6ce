-- ===== src/Timing/Ascending.antt =====
-- tools/validate_timing_evidence.py: the comparison of numbers with their sorted list.
use astra_sim_fsw.Base.{
  true, false, List, [], ◌∷◌, ◌≡◌, ◌↔◌, refl, sym, subst, ◌∙◌, inl, inr, arith, Option, none, some,
  Bool-cases,
}
use astra_sim_fsw.Base.Int.{ℤ, pos, negsuc, int_eq, ltb_ℤ}
use astra_sim_fsw.Timing.{insert_number, sorted_numbers, same_numbers, is_unordered}

abbrev pub IsAscending : List ℤ → Type 0
IsAscending [] = Unit
IsAscending (m ∷ []) = Unit
IsAscending (m ∷ n ∷ ns) = (ltb_ℤ n m ≡ false) × IsAscending (n ∷ ns)

pub int_eq_iff : (m n : ℤ) → (int_eq m n ≡ true) ↔ (m ≡ n)
int_eq_iff (pos m) (pos n) = ground arith
int_eq_iff (pos m) (negsuc n) = ground arith
int_eq_iff (negsuc m) (pos n) = ground arith
int_eq_iff (negsuc m) (negsuc n) = ground arith

-- Numbers that ascend stay where they are.
pub sorted_numbers_self : (ns : List ℤ) → IsAscending ns → sorted_numbers ns ≡ ns
unfolding sorted_numbers insert_number
sorted_numbers_self [] h = refl
sorted_numbers_self (m ∷ []) h = refl
sorted_numbers_self (m ∷ n ∷ ns) (one, h) =
    rw (sorted_numbers, sorted_numbers_self (n ∷ ns) h) (rw (insert_number, one) refl)

pub same_numbers_refl : (ns : List ℤ) → same_numbers ns ns ≡ true
unfolding same_numbers
same_numbers_refl [] = refl
same_numbers_refl (n ∷ ns) = rw ((int_eq_iff n n).1 refl) (same_numbers_refl ns)

pub same_numbers-eq : (ms ns : List ℤ) → same_numbers ms ns ≡ true → ms ≡ ns
unfolding same_numbers
same_numbers-eq [] [] h = refl
same_numbers-eq [] (n ∷ ns) h = absurd (cc (h))
same_numbers-eq (m ∷ ms) [] h = absurd (cc (h))
same_numbers-eq (m ∷ ms) (n ∷ ns) h = elim (Bool-cases (int_eq m n)) [
  | inl same ↦ let rest = same_numbers-eq ms ns (rw same at h) in cc ((int_eq_iff m n).0 same, rest)
  | inr other ↦ absurd (cc (rw other at h))
]

pub ltb_ℤ_total : (m n : ℤ) → ltb_ℤ m n ≡ true → ltb_ℤ n m ≡ false
ltb_ℤ_total m n h = ground arith

pub insert_number-IsAscending :
    (n : ℤ) (ms : List ℤ) → IsAscending ms → IsAscending (insert_number n ms)
unfolding insert_number
insert_number-IsAscending n [] h = tt
insert_number-IsAscending n (m ∷ []) h = elim (Bool-cases (ltb_ℤ m n)) [
  | inl less ↦ rw less (ltb_ℤ_total m n less, tt)
  | inr other ↦ rw other (other, tt)
]
insert_number-IsAscending n (m ∷ k ∷ ks) (one, h) = elim (Bool-cases (ltb_ℤ m n)) [
  | inr other ↦ rw other (other, (one, h))
  | inl less ↦ rw less (elim (Bool-cases (ltb_ℤ k n)) [
    | inl further ↦
        rw further (one, rw (insert_number, further) at (insert_number-IsAscending n (k ∷ ks) h))
    | inr here ↦ rw here (ltb_ℤ_total m n less, (here, h))
  ])
]

pub sorted_numbers-IsAscending : (ns : List ℤ) → IsAscending (sorted_numbers ns)
unfolding sorted_numbers
sorted_numbers-IsAscending [] = tt
sorted_numbers-IsAscending (n ∷ ns) =
    insert_number-IsAscending n (sorted_numbers ns) (sorted_numbers-IsAscending ns)

pub is_unordered_iff :
    (found : Option (List ℤ))
    → (is_unordered found ≡ false) ↔ ((ns : List ℤ) → found ≡ some ns → IsAscending ns)
unfolding is_unordered
is_unordered_iff none = (λ h ns e. absurd (cc (e)), λ h. refl)
is_unordered_iff (some ms) = (
  λ h ns e.
      let same : ms ≡ ns = cc (e) in
      let equal = same_numbers-eq ms (sorted_numbers ms) (ground arith) in
      subst IsAscending (sym equal ∙ same) (sorted_numbers-IsAscending ms),
  λ h. rw (is_unordered, sorted_numbers_self ms (h ms refl)) (rw (same_numbers_refl ms) refl),
)
