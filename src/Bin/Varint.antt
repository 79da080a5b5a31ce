-- ===== src/Bin/Varint.antt =====
-- aicl/bin/varint.py: numbers of up to four bytes, seven bits a byte, lowest first.
pub mod RoundTrip
pub mod Decode
use aicl.Common.{
  [], bit_and, bit_or, if◌then◌else◌, ltb, negsuc, pos, suc, zero, ℕ, ℤ, ◌*◌, ◌+◌, ◌/◌, ◌==◌, ◌^◌,
  ◌∷◌,
}
use aicl.Py.Result.{Result, err, ok, symbol_error}
use aicl.Py.Struct.{Bytes}

-- `_MAX_BYTES`
abbrev pub max_bytes : ℕ
max_bytes = 4

-- The loop of `encode_varint` with `k` rounds left; `value >>= 7` is a division by 128.
pub encode_rounds : ℕ → ℕ → Bytes
encode_rounds zero value = []
encode_rounds (suc k) value =
    let more = ltb 0x7F value in
    let byte = bit_or (bit_and value 0x7F) (if more then 0x80 else 0) in
    let rest = encode_rounds k (value / 128) in if more then byte ∷ rest else byte ∷ []

unfoldable pub encode_varint : ℤ → Result Bytes
unfolding encode_rounds
encode_varint (negsuc n) = err symbol_error
encode_varint (pos value) = ok (encode_rounds max_bytes value)

-- The loop of `decode_varint` with `k` rounds left; `src` is `data[pos + i:]`, and what follows the
-- number stands for the new position.
pub decode_rounds : ℕ → ℕ → ℕ → Bytes → Result (ℕ × Bytes)
decode_rounds zero shift value src = err symbol_error
decode_rounds (suc k) shift value [] = err symbol_error
decode_rounds (suc k) shift value (byte ∷ src) =
    let value' = bit_or value (bit_and byte 0x7F * 2 ^ shift) in
    let rest = decode_rounds k (shift + 7) value' src in
    if bit_and byte 0x80 == 0 then ok (value', src) else rest

unfoldable pub decode_varint : Bytes → Result (ℕ × Bytes)
unfolding decode_rounds
decode_varint src = decode_rounds max_bytes 0 0 src
