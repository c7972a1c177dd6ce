-- ===== src/Protocol/Crc/Detects.antt =====
-- One round of the register is a permutation of the 16-bit states, so bytes that differ in one
-- place never have the same checksum.
use astra_sim_fsw.Base.{
  ℕ, zero, suc, ◌+◌, ◌*◌, ◌/◌, ◌%◌, ◌<◌, List, [], ◌∷◌, ◌++◌, ◌≡◌, ◌≢◌, refl, sym, ap, ◌∙◌, Bool,
  true, ◌&&◌, arith, ltb, ◌==◌, All, if◌then◌else◌, bit_xor,
}
use astra_sim_fsw.Base.Bits.{bit_xor_comm, bit_xor-injective, bit_xor-lt}
use astra_sim_fsw.Protocol.Crc.{crc_bit, crc_bits, crc_byte, crc_from, crc16_ccitt}

-- The inverse of `crc_bit`: the feedback term is odd, so the lowest bit tells the branch.
crc_unbit : ℕ → ℕ
crc_unbit crc = if crc % 2 == 0 then crc / 2 else bit_xor crc 0x1021 / 2 + 0x8000

-- A test of every number below a bound, in two digits to the base 256.
passes_below : (ℕ → Bool) → ℕ → Bool
passes_below test zero = true
passes_below test (suc bound) = passes_below test bound && test bound

passes_below_sound :
    (test : ℕ → Bool) (bound : ℕ) {value : ℕ}
    → passes_below test bound ≡ true
    → value < bound
    → test value ≡ true
unfolding passes_below
passes_below_sound test zero all below = absurd (omega arith)
passes_below_sound test (suc bound) {value} all below =
    ground (arith, passes_below_sound test bound {value = value})

round_trips : ℕ → Bool
round_trips x = crc_unbit (crc_bit x) == x && ltb (crc_bit x) 0x10000

row : ℕ → Bool
row hi = passes_below (λ lo. round_trips (hi * 256 + lo)) 256

table : passes_below row 256 ≡ true
unfolding passes_below row round_trips crc_unbit crc_bit
table = refl

abbrev pub IsByte : ℕ → Type 0
IsByte b = b < 256

crc_bit_checked :
    (crc : ℕ) → crc < 0x10000 → (crc_unbit (crc_bit crc) ≡ crc) × (crc_bit crc < 0x10000)
unfolding row round_trips
crc_bit_checked crc h =
    let in_row = passes_below_sound row 256 {value = crc / 256} table (omega arith) in
    let passed =
      passes_below_sound (λ lo. round_trips (crc / 256 * 256 + lo)) 256 {value = crc % 256} in
    let e : crc / 256 * 256 + crc % 256 ≡ crc = omega arith in
    ground (arith, rw e at (passed in_row (omega arith)))

crc_bit-injective : (a b : ℕ) → a < 0x10000 → b < 0x10000 → crc_bit a ≡ crc_bit b → a ≡ b
crc_bit-injective a b p q e = sym (crc_bit_checked a p).0 ∙ ap crc_unbit e ∙ (crc_bit_checked b q).0

crc_bits-lt : (n crc : ℕ) → crc < 0x10000 → crc_bits n crc < 0x10000
unfolding crc_bits
crc_bits-lt zero crc h = h
crc_bits-lt (suc n) crc h = crc_bits-lt n (crc_bit crc) (crc_bit_checked crc h).1

crc_bits-injective : (n a b : ℕ) → a < 0x10000 → b < 0x10000 → crc_bits n a ≡ crc_bits n b → a ≡ b
unfolding crc_bits
crc_bits-injective zero a b p q e = e
crc_bits-injective (suc n) a b p q e =
    crc_bit-injective a b p q (
      crc_bits-injective n (crc_bit a) (crc_bit b) (crc_bit_checked a p).1 (crc_bit_checked b q).1
        e)

crc_byte_start : (crc byte : ℕ) → crc < 0x10000 → IsByte byte → bit_xor crc (byte * 256) < 0x10000
crc_byte_start crc byte p q = bit_xor-lt 16 crc (byte * 256) p (omega arith)

pub crc_byte-lt : (crc byte : ℕ) → crc < 0x10000 → IsByte byte → crc_byte crc byte < 0x10000
unfolding crc_byte
crc_byte-lt crc byte p q = crc_bits-lt 8 _ (crc_byte_start crc byte p q)

-- One byte permutes the states of the register, and different bytes lead to different states.
crc_byte-injective_crc :
    (a b byte : ℕ)
    → a < 0x10000
    → b < 0x10000
    → IsByte byte
    → crc_byte a byte ≡ crc_byte b byte
    → a ≡ b
unfolding crc_byte
crc_byte-injective_crc a b byte p q r e =
    bit_xor-injective a b (byte * 256)
      (crc_bits-injective 8 _ _ (crc_byte_start a byte p r) (crc_byte_start b byte q r) e)

crc_byte-injective_byte :
    (crc x y : ℕ) → crc < 0x10000 → IsByte x → IsByte y → crc_byte crc x ≡ crc_byte crc y → x ≡ y
unfolding crc_byte
crc_byte-injective_byte crc x y p q r e =
    let same = crc_bits-injective 8 _ _ (crc_byte_start crc x p q) (crc_byte_start crc y p r) e in
    let turned = bit_xor_comm (x * 256) crc ∙ same ∙ bit_xor_comm crc (y * 256) in
    omega (arith, bit_xor-injective (x * 256) (y * 256) crc turned)

crc_from-lt :
    (crc : ℕ) (bytes : List ℕ) → crc < 0x10000 → All IsByte bytes → crc_from crc bytes < 0x10000
unfolding crc_from
crc_from-lt crc [] p h = p
crc_from-lt crc (b ∷ bytes) p (hb, h) =
    crc_from-lt (crc_byte crc b) bytes (crc_byte-lt crc b p hb) h

crc_from-injective :
    (bytes : List ℕ) (a b : ℕ)
    → a < 0x10000
    → b < 0x10000
    → All IsByte bytes
    → crc_from a bytes ≡ crc_from b bytes
    → a ≡ b
unfolding crc_from
crc_from-injective [] a b p q h e = e
crc_from-injective (c ∷ bytes) a b p q (hc, h) e =
    let pa = crc_byte-lt a c p hc in
    let pb = crc_byte-lt b c q hc in
    crc_byte-injective_crc a b c p q hc (crc_from-injective bytes _ _ pa pb h e)

pub crc_from-append :
    (crc : ℕ) (xs ys : List ℕ) → crc_from crc (xs ++ ys) ≡ crc_from (crc_from crc xs) ys
unfolding crc_from
crc_from-append crc [] ys = refl
crc_from-append crc (x ∷ xs) ys = crc_from-append (crc_byte crc x) xs ys

-- The checksum of bytes is a 16-bit number.
pub crc16_ccitt-lt : (bytes : List ℕ) → All IsByte bytes → crc16_ccitt bytes < 0x10000
unfolding crc16_ccitt
crc16_ccitt-lt bytes h = crc_from-lt 0xFFFF bytes (omega arith) h

-- Two messages of bytes that differ in exactly one byte, at any position, have different checksums.
pub crc16_ccitt-ne :
    (front back : List ℕ) (x y : ℕ)
    → All IsByte front
    → All IsByte back
    → IsByte x
    → IsByte y
    → x ≢ y
    → crc16_ccitt (front ++ (x ∷ back)) ≢ crc16_ccitt (front ++ (y ∷ back))
unfolding crc16_ccitt crc_from
crc16_ccitt-ne front back x y hf hb hx hy ne e =
    let s = crc_from 0xFFFF front in
    let hs = crc_from-lt 0xFFFF front (omega arith) hf in
    let split_x = crc_from-append 0xFFFF front (x ∷ back) in
    let split_y = crc_from-append 0xFFFF front (y ∷ back) in
    let joined = sym split_x ∙ e ∙ split_y in
    let states =
      crc_from-injective back (crc_byte s x) (crc_byte s y) (crc_byte-lt s x hs hx)
        (crc_byte-lt s y hs hy) hb joined in
    ne (crc_byte-injective_byte s x y hs hx hy states)
