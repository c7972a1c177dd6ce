-- ===== src/Protocol/Pack.antt =====
-- `struct.pack` and `struct.unpack` of unsigned fields in little-endian order. A float field is
-- kept as its 32-bit pattern.
use astra_sim_fsw.Base.{
  ℕ, zero, suc, ◌+◌, ◌*◌, ◌/◌, ◌%◌, ◌^◌, ◌<◌, List, [], ◌∷◌, ◌++◌, ◌≡◌, refl, ap, arith, ltb,
  length, All, Result, ok, err, struct_error, if◌then◌else◌,
}
use native.Mathlib.Nat.{pow-suc}
use astra_sim_fsw.Base.Int.{ℤ, pos, negsuc}
use astra_sim_fsw.Protocol.Crc.Detects.{IsByte}

-- The w bytes of a number, lowest first.
unfoldable pub pack_le : ℕ → ℕ → List ℕ
pack_le zero n = []
pack_le (suc w) n = (n % 256) ∷ pack_le w (n / 256)

-- The number in the first w bytes.
unfoldable pub unpack_le : ℕ → List ℕ → ℕ
unpack_le zero bytes = 0
unpack_le (suc w) [] = 0
unpack_le (suc w) (b ∷ bytes) = b + 256 * unpack_le w bytes

-- One field of `struct.pack`: a value out of range raises `struct.error`.
unfoldable pub pack_field : ℕ → ℤ → Result (List ℕ)
pack_field w (pos n) = if ltb n (256 ^ w) then ok (pack_le w n) else err struct_error
pack_field w (negsuc n) = err struct_error

pub length-pack_le : (w n : ℕ) → length (pack_le w n) ≡ w
unfolding pack_le
length-pack_le zero n = refl
length-pack_le (suc w) n = ap suc (length-pack_le w (n / 256))

pub pack_le-IsByte : (w n : ℕ) → All IsByte (pack_le w n)
unfolding pack_le
pack_le-IsByte zero n = tt
pack_le-IsByte (suc w) n = (omega arith, pack_le-IsByte w (n / 256))

pub unpack_le-pack_le :
    (w n : ℕ) (rest : List ℕ) → n < 256 ^ w → unpack_le w (pack_le w n ++ rest) ≡ n
unfolding pack_le unpack_le
unpack_le-pack_le zero n rest h = omega arith
unpack_le-pack_le (suc w) n rest h =
    let fits : n / 256 < 256 ^ w = omega (arith, pow-suc 256 w) in
    omega (arith, unpack_le-pack_le w (n / 256) rest fits)

pub pack_le-unpack_le :
    (w : ℕ) (bytes : List ℕ)
    → length bytes ≡ w
    → All IsByte bytes
    → pack_le w (unpack_le w bytes) ≡ bytes
unfolding pack_le unpack_le
pack_le-unpack_le zero [] e h = refl
pack_le-unpack_le zero (b ∷ bytes) e h = absurd (omega arith)
pack_le-unpack_le (suc w) [] e h = absurd (omega arith)
pack_le-unpack_le (suc w) (b ∷ bytes) e (hb, h) =
    let low : (b + 256 * unpack_le w bytes) % 256 ≡ b = omega arith in
    let high : (b + 256 * unpack_le w bytes) / 256 ≡ unpack_le w bytes = omega arith in
    rw (low, high) (ap (◌∷◌ b) (pack_le-unpack_le w bytes (omega arith) h))

-- `struct.pack` succeeds exactly on the numbers that fit the field.
pub pack_field-ok : (w n : ℕ) → n < 256 ^ w → pack_field w (pos n) ≡ ok (pack_le w n)
unfolding pack_field
pack_field-ok w n h = ground arith
