-- ===== src/Base/Sort.antt =====
-- `sorted(xs, key=...)`: a stable insertion sort by a text key, its order and its contents.
use Prim.Native.Nat.{suc}
use mathlib.Core.Path.{◌≡◌, refl, ap, ◌∙◌}
use mathlib.Core.Bool.{true, false}
use mathlib.Core.Logic.{inl, inr, ◌↔◌}
use mathlib.Core.List.{List, [], ◌∷◌, Perm}
use mathlib.Core.List.Perm
use native.Mathlib.Omega.{arith}
use astra_sim_fsw.Base.Tests.{if◌then◌else◌, Bool-cases}
use astra_sim_fsw.Base.Lists.{length, All}
use astra_sim_fsw.Base.Strings.{Text, text_leb}

pub text_leb_total : (a b : Text) → text_leb a b ≡ false → text_leb b a ≡ true
unfolding text_leb
text_leb_total [] b h = cc
text_leb_total (x ∷ a) [] h = refl
text_leb_total (x ∷ a) (y ∷ b) h = ground (arith, text_leb_total a b)

pub text_leb_trans :
    (a b c : Text) → text_leb a b ≡ true → text_leb b c ≡ true → text_leb a c ≡ true
unfolding text_leb
text_leb_trans [] b c h k = refl
text_leb_trans (x ∷ a) [] c h k = cc
text_leb_trans (x ∷ a) (y ∷ b) [] h k = cc
text_leb_trans (x ∷ a) (y ∷ b) (z ∷ c) h k = ground (arith, text_leb_trans a b c)

module _ {ℓ} {A : Type ℓ} (key : A → Text) where
  unfoldable pub insert_sorted : A → List A → List A
  insert_sorted x [] = x ∷ []
  insert_sorted x (y ∷ ys) =
      if text_leb (key x) (key y) then x ∷ (y ∷ ys) else y ∷ insert_sorted x ys

  unfoldable pub sorted : List A → List A
  unfolding insert_sorted
  sorted [] = []
  sorted (x ∷ xs) = insert_sorted x (sorted xs)

  -- Every key is at most all the later keys.
  abbrev pub IsSorted : List A → Type 0
  IsSorted [] = Unit
  IsSorted (x ∷ xs) = All (λ y. text_leb (key x) (key y) ≡ true) xs × IsSorted xs

  All-insert_sorted {κ} :
      (P : A → Type κ) (x : A) (ys : List A) → P x → All P ys → All P (insert_sorted x ys)
  unfolding insert_sorted
  All-insert_sorted P x [] hx h = (hx, tt)
  All-insert_sorted P x (y ∷ ys) hx (hy, h) = elim (Bool-cases (text_leb (key x) (key y))) [
    | inl le ↦ rw le (hx, (hy, h))
    | inr gt ↦ rw gt (hy, All-insert_sorted P x ys hx h)
  ]

  All-trans :
      (x y : A) (ys : List A)
      → text_leb (key x) (key y) ≡ true
      → All (λ z. text_leb (key y) (key z) ≡ true) ys
      → All (λ z. text_leb (key x) (key z) ≡ true) ys
  All-trans x y [] le h = tt
  All-trans x y (z ∷ ys) le (hz, h) =
      (text_leb_trans (key x) (key y) (key z) le hz, All-trans x y ys le h)

  insert_sorted-IsSorted : (x : A) (ys : List A) → IsSorted ys → IsSorted (insert_sorted x ys)
  unfolding insert_sorted
  insert_sorted-IsSorted x [] h = (tt, tt)
  insert_sorted-IsSorted x (y ∷ ys) (hy, h) = elim (Bool-cases (text_leb (key x) (key y))) [
    | inl le ↦ rw le ((le, All-trans x y ys le hy), (hy, h))
    | inr gt ↦ rw gt (
      All-insert_sorted (λ z. text_leb (key y) (key z) ≡ true) x ys
          (text_leb_total (key x) (key y) gt) hy,
      insert_sorted-IsSorted x ys h,
    )
  ]

  pub sorted-IsSorted : (xs : List A) → IsSorted (sorted xs)
  unfolding sorted
  sorted-IsSorted [] = tt
  sorted-IsSorted (x ∷ xs) = insert_sorted-IsSorted x (sorted xs) (sorted-IsSorted xs)

  insert_sorted-perm : (x : A) (ys : List A) → Perm (insert_sorted x ys) (x ∷ ys)
  unfolding insert_sorted
  insert_sorted-perm x [] = Perm.refl (x ∷ [])
  insert_sorted-perm x (y ∷ ys) = elim (Bool-cases (text_leb (key x) (key y))) [
    | inl le ↦ rw le (Perm.refl (x ∷ y ∷ ys))
    | inr gt ↦ rw gt (Perm.trans (Perm.cons y (insert_sorted-perm x ys)) (Perm.swap x y ys))
  ]

  pub sorted-perm : (xs : List A) → Perm (sorted xs) xs
  unfolding sorted
  sorted-perm [] = Perm.refl []
  sorted-perm (x ∷ xs) =
      Perm.trans (insert_sorted-perm x (sorted xs)) (Perm.cons x (sorted-perm xs))

  insert_sorted-first :
      (x : A) (ys : List A)
      → All (λ y. text_leb (key x) (key y) ≡ true) ys
      → insert_sorted x ys ≡ x ∷ ys
  unfolding insert_sorted
  insert_sorted-first x [] h = refl
  insert_sorted-first x (y ∷ ys) (hy, h) = rw hy

  -- What is sorted already stays as it is.
  pub sorted_self : (xs : List A) → IsSorted xs → sorted xs ≡ xs
  unfolding sorted
  sorted_self [] h = refl
  sorted_self (x ∷ xs) (hx, h) = rw (sorted_self xs h) (insert_sorted-first x xs hx)

  length-insert_sorted : (x : A) (ys : List A) → length (insert_sorted x ys) ≡ suc (length ys)
  unfolding insert_sorted
  length-insert_sorted x [] = refl
  length-insert_sorted x (y ∷ ys) = elim (Bool-cases (text_leb (key x) (key y))) [
    | inl le ↦ rw le
    | inr gt ↦ rw gt (ap suc (length-insert_sorted x ys))
  ]

  pub length-sorted : (xs : List A) → length (sorted xs) ≡ length xs
  unfolding sorted
  length-sorted [] = refl
  length-sorted (x ∷ xs) = length-insert_sorted x (sorted xs) ∙ ap suc (length-sorted xs)

  -- What holds of all elements holds of all elements of the sorted list, and back.
  All-insert_sorted_iff {κ} :
      (P : A → Type κ) (x : A) (ys : List A) → All P (insert_sorted x ys) ↔ All P (x ∷ ys)
  unfolding insert_sorted
  All-insert_sorted_iff P x [] = (λ h. h, λ h. h)
  All-insert_sorted_iff P x (y ∷ ys) = elim (Bool-cases (text_leb (key x) (key y))) [
    | inl le ↦ rw le (λ h. h, λ h. h)
    | inr gt ↦
        let (there, back) = All-insert_sorted_iff P x ys in
        rw gt (λ h. ((there h.1).0, (h.0, (there h.1).1)), λ h. (h.1.0, back (h.0, h.1.1)))
  ]

  pub All-sorted_iff {κ} : (P : A → Type κ) (xs : List A) → All P (sorted xs) ↔ All P xs
  unfolding sorted
  All-sorted_iff P [] = (λ h. h, λ h. h)
  All-sorted_iff P (x ∷ xs) =
      let (there, back) = All-insert_sorted_iff P x (sorted xs) in
      let (on, off) = All-sorted_iff P xs in
      (λ h. ((there h).0, on (there h).1), λ h. back (h.0, off h.1))
