-- ===== src/Crc.antt =====
-- `zlib.crc32`, bit by bit: the reflected polynomial 0xedb88320.
use Prim.Native.Nat.{bit_xor}
use mathlib.Core.List.{foldl}
use ground_hog.Prelude.{
  ℕ, zero, suc, ◌/◌, ◌%◌, ◌^◌, ◌<◌, ◌≡◌, refl, [], ◌∷◌, arith, ◌==◌, if◌then◌else◌,
}
use ground_hog.Bytes.{Bytes}

crc_bit : ℕ → ℕ
crc_bit c = if c % 2 == 1 then bit_xor (c / 2) 0xedb88320 else c / 2

crc_bits : ℕ → ℕ → ℕ
crc_bits zero c = c
crc_bits (suc n) c = crc_bits n (crc_bit c)

crc_byte : ℕ → ℕ → ℕ
crc_byte c b = crc_bits 8 (bit_xor c b)

unfoldable pub crc32 : Bytes → ℕ
unfolding crc_bit crc_bits crc_byte
crc32 bytes = bit_xor (foldl crc_byte 0xffffffff bytes) 0xffffffff % 2 ^ 32

pub crc32-lt : (bytes : Bytes) → crc32 bytes < 2 ^ 32
unfolding crc32
crc32-lt bytes = omega arith

-- The check value of CRC-32: the checksum of "123456789".
check_value : crc32 (49 ∷ 50 ∷ 51 ∷ 52 ∷ 53 ∷ 54 ∷ 55 ∷ 56 ∷ 57 ∷ []) ≡ 0xcbf43926
unfolding crc32
check_value = refl
