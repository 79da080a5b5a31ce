-- ===== src/Py/Ints.antt =====
-- `struct.pack` and `unpack_from` of one integer: two's complement for the signed formats.
pub mod Laws
use aicl.Common.{Bool, false, if◌then◌else◌, ltb, negsuc, pos, true, ℕ, ℤ, ◌*◌, ◌+◌, ◌-◌, ◌<◌, ◌^◌}
use aicl.Py.Result.{Result, err, ok, struct_error}
use aicl.Py.Struct.{Bytes, be, from_be}

-- Whether the `w`-byte format is signed (b h i q) or not (B H I Q).
unfoldable pub pack_int : Bool → ℕ → ℤ → Result Bytes
pack_int false w (pos n) = if ltb n (256 ^ w) then ok (be w n) else err struct_error
pack_int false w (negsuc n) = err struct_error
pack_int true w (pos n) = if ltb (2 * n) (256 ^ w) then ok (be w n) else err struct_error
pack_int true w (negsuc n) =
    if ltb (2 * n + 1) (256 ^ w) then ok (be w (256 ^ w - (n + 1))) else err struct_error

-- The integer that `w` bytes stand for.
unfoldable pub unpack_int : Bool → ℕ → Bytes → ℤ
unpack_int false w bs = pos (from_be 0 bs)
unpack_int true w bs =
    let n = from_be 0 bs in if ltb (2 * n) (256 ^ w) then pos n else negsuc (256 ^ w - (n + 1))

-- The integers that a format holds.
abbrev pub InRange : Bool → ℕ → ℤ → Type 0
InRange false w (pos n) = n < 256 ^ w
InRange false w (negsuc n) = ⊥
InRange true w (pos n) = 2 * n < 256 ^ w
InRange true w (negsuc n) = 2 * n + 1 < 256 ^ w
