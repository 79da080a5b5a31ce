-- ===== src/Py/Crc.antt =====
-- `zlib.crc32`: the reflected CRC-32 with polynomial 0xEDB88320, bit by bit.
use aicl.Common.{[], bit_xor, if◌then◌else◌, suc, zero, ℕ, ◌%◌, ◌/◌, ◌==◌, ◌∷◌}
use aicl.Py.Struct.{Bytes}

crc_bits : ℕ → ℕ → ℕ
crc_bits zero crc = crc
crc_bits (suc k) crc = crc_bits k (if crc % 2 == 1 then bit_xor (crc / 2) 0xEDB8_8320 else crc / 2)

crc_bytes : ℕ → Bytes → ℕ
unfolding crc_bits
crc_bytes crc [] = crc
crc_bytes crc (b ∷ bs) = crc_bytes (crc_bits 8 (bit_xor crc b)) bs

unfoldable pub crc32 : Bytes → ℕ
unfolding crc_bytes
crc32 bs = bit_xor (crc_bytes 0xFFFF_FFFF bs) 0xFFFF_FFFF
