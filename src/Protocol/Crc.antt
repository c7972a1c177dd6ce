-- ===== src/Protocol/Crc.antt =====
-- `crc16_ccitt` of tools/send_command.py, repeated in the other protocol tools.
pub mod Detects
use astra_sim_fsw.Base.{ℕ, zero, suc, ◌*◌, List, [], ◌∷◌, ◌==◌, if◌then◌else◌, bit_and, bit_xor}

-- The body of the inner loop: one bit.
unfoldable pub crc_bit : ℕ → ℕ
crc_bit crc =
    if bit_and crc 0x8000 == 0
    then bit_and (crc * 2) 0xFFFF
    else bit_and (bit_xor (crc * 2) 0x1021) 0xFFFF

-- `for _ in range(8)`
unfoldable pub crc_bits : ℕ → ℕ → ℕ
unfolding crc_bit
crc_bits zero crc = crc
crc_bits (suc n) crc = crc_bits n (crc_bit crc)

-- The body of the outer loop: one byte.
unfoldable pub crc_byte : ℕ → ℕ → ℕ
unfolding crc_bits
crc_byte crc byte = crc_bits 8 (bit_xor crc (byte * 256))

-- The loop over the bytes, from a state of the register.
unfoldable pub crc_from : ℕ → List ℕ → ℕ
unfolding crc_byte
crc_from crc [] = crc
crc_from crc (byte ∷ bytes) = crc_from (crc_byte crc byte) bytes

unfoldable pub crc16_ccitt : List ℕ → ℕ
unfolding crc_from
crc16_ccitt bytes = crc_from 0xFFFF bytes
