-- ===== src/Prelude/Crc.antt =====
-- `crc32.ChecksumIEEE` of the Go library: the reflected CRC-32 with polynomial 0xEDB88320.
use Prim.Native.Nat.{bit_xor}
use peretum.Prelude.Bytes.{Bytes, codes}
use peretum.Prelude.{
  ℕ, zero, suc, ◌/◌, ◌%◌, ◌^◌, ◌<◌, ◌≡◌, refl, [], ◌∷◌, ◌==◌, if◌then◌else◌, arith,
}

shift_bits : ℕ → ℕ → ℕ
shift_bits zero crc = crc
shift_bits (suc k) crc =
    shift_bits k (if crc % 2 == 1 then bit_xor (crc / 2) 0xEDB88320 else crc / 2)

crc_loop : ℕ → Bytes → ℕ
crc_loop crc [] = crc
crc_loop crc (b ∷ bs) = crc_loop (shift_bits 8 (bit_xor crc b)) bs

unfoldable pub crc32 : Bytes → ℕ
unfolding shift_bits crc_loop
crc32 bs = bit_xor (crc_loop 0xFFFFFFFF bs) 0xFFFFFFFF % 2 ^ 32

pub crc32-lt : (bs : Bytes) → crc32 bs < 2 ^ 32
unfolding crc32
crc32-lt bs = omega arith

check_value : crc32 (codes "123456789") ≡ 0xCBF43926
unfolding crc32
check_value = refl
