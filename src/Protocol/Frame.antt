-- ===== src/Protocol/Frame.antt =====
-- A frame is a body and its checksum in two bytes: one changed byte never leaves a valid frame.
use astra_sim_fsw.Base.{
  ℕ, zero, suc, ◌+◌, ◌-◌, ◌≤◌, ◌<◌, List, [], ◌∷◌, ◌++◌, ◌≡◌, ◌≢◌, refl, sym, ap, ◌∙◌, arith,
  length, length-append, take, drop, All,
}
use astra_sim_fsw.Protocol.Crc.{crc16_ccitt}
use astra_sim_fsw.Protocol.Crc.Detects.{IsByte, crc16_ccitt-ne}
use astra_sim_fsw.Protocol.Pack.{unpack_le}
use native.Mathlib.Decide.{dec_lt}

module _ {ℓ} {A : Type ℓ} where
  take-append_before :
      (front back : List A) (x : A) (m : ℕ)
      → length front < m
      → take m (front ++ (x ∷ back)) ≡ front ++ (x ∷ take (m - length front - 1) back)
  take-append_before front back x zero h = absurd (omega arith)
  take-append_before [] back x (suc m) h = let e : suc m - 0 - 1 ≡ m = omega arith in rw e
  take-append_before (c ∷ front) back x (suc m) h =
      let e : suc m - suc (length front) - 1 ≡ m - length front - 1 = omega arith in
      rw e (ap (◌∷◌ c) (take-append_before front back x m (omega arith)))

  drop-append_before :
      (front back : List A) (x : A) (m : ℕ)
      → length front < m
      → drop m (front ++ (x ∷ back)) ≡ drop (m - length front - 1) back
  drop-append_before front back x zero h = absurd (omega arith)
  drop-append_before [] back x (suc m) h = let e : suc m - 0 - 1 ≡ m = omega arith in rw e
  drop-append_before (c ∷ front) back x (suc m) h =
      let e : suc m - suc (length front) - 1 ≡ m - length front - 1 = omega arith in
      rw e (drop-append_before front back x m (omega arith))

  take-append_after :
      (m : ℕ) (front back : List A) → m ≤ length front → take m (front ++ back) ≡ take m front
  take-append_after zero front back h = refl
  take-append_after (suc m) [] back h = absurd (omega arith)
  take-append_after (suc m) (c ∷ front) back h =
      ap (◌∷◌ c) (take-append_after m front back (omega arith))

  drop-append_after :
      (m : ℕ) (front back : List A)
      → m ≤ length front
      → drop m (front ++ back) ≡ drop m front ++ back
  drop-append_after zero front back h = refl
  drop-append_after (suc m) [] back h = absurd (omega arith)
  drop-append_after (suc m) (c ∷ front) back h = drop-append_after m front back (omega arith)

  length-drop : (m : ℕ) (xs : List A) → length (drop m xs) ≡ length xs - m
  length-drop zero xs = omega arith
  length-drop (suc m) [] = omega arith
  length-drop (suc m) (x ∷ xs) = omega (arith, length-drop m xs)

  All-take {κ} : (P : A → Type κ) (m : ℕ) (xs : List A) → All P xs → All P (take m xs)
  All-take P zero xs h = tt
  All-take P (suc m) [] h = tt
  All-take P (suc m) (x ∷ xs) (hx, h) = (hx, All-take P m xs h)

unpack_le-ne :
    (w : ℕ) (front back : List ℕ) (x y : ℕ)
    → length front < w
    → x ≢ y
    → unpack_le w (front ++ (x ∷ back)) ≢ unpack_le w (front ++ (y ∷ back))
unfolding unpack_le
unpack_le-ne zero front back x y h ne e = absurd (omega arith)
unpack_le-ne (suc w) [] back x y h ne e = ne (omega arith)
unpack_le-ne (suc w) (c ∷ front) back x y h ne e =
    unpack_le-ne w front back x y (omega arith) ne (omega arith)

-- The checksum of a frame with a body of m bytes.
abbrev pub Checks : ℕ → List ℕ → Type 0
Checks m bytes = unpack_le 2 (drop m bytes) ≡ crc16_ccitt (take m bytes)

pub Checks-changed :
    (m : ℕ) (front back : List ℕ) (x y : ℕ)
    → length (front ++ (x ∷ back)) ≡ m + 2
    → All IsByte front
    → All IsByte back
    → IsByte x
    → IsByte y
    → x ≢ y
    → Checks m (front ++ (x ∷ back))
    → ¬ Checks m (front ++ (y ∷ back))
Checks-changed m front back x y size hf hb hx hy ne good bad = elim (dec_lt (length front) m) [
  | yes before ↦
      let k = m - length front - 1 in
      let same_crc =
        sym (ap crc16_ccitt (take-append_before front back x m before))
        ∙ sym good
        ∙ ap (unpack_le 2) (drop-append_before front back x m before)
        ∙ sym (ap (unpack_le 2) (drop-append_before front back y m before))
        ∙ bad
        ∙ ap crc16_ccitt (take-append_before front back y m before) in
      crc16_ccitt-ne front (take k back) x y hf (All-take IsByte k back hb) hx hy ne same_crc
  | no after ↦
      let late : m ≤ length front = omega arith in
      let short : length (drop m front) < 2 =
        omega (arith, length-drop m front, length-append front (x ∷ back), size) in
      let same_field =
        sym (ap (unpack_le 2) (drop-append_after m front (x ∷ back) late))
        ∙ good
        ∙ ap crc16_ccitt (take-append_after m front (x ∷ back) late)
        ∙ sym (ap crc16_ccitt (take-append_after m front (y ∷ back) late))
        ∙ sym bad
        ∙ ap (unpack_le 2) (drop-append_after m front (y ∷ back) late) in
      unpack_le-ne 2 (drop m front) back x y short ne same_field
]
