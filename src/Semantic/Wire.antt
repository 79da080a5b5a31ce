-- ===== src/Semantic/Wire.antt =====
-- The fields that aicl/semantic/fast_codec.py and aicl/semantic/fast_action_codec.py share. A position
-- is modelled by the bytes that are left; a slice past the end is cut short, as in the code.
pub mod Fields
use aicl.Common.{
  Bool, [], bit_and, bit_or, drop, false, if◌then◌else◌, length, ltb, min, negsuc, not, pos, suc,
  take, true, zero, ℕ, ℤ, ◌%◌, ◌*◌, ◌++◌, ◌+◌, ◌-◌, ◌/◌, ◌==◌, ◌^◌, ◌∷◌,
}
use aicl.Py.Any.{Any, no_keys, of_bool, of_dict, of_float, of_int, of_str, truthy}
use aicl.Py.Float.{times_thousand}
use aicl.Py.Ints.{pack_int}
use aicl.Py.Json.Dump.{dumps}
use aicl.Py.Json.Load.{loads}
use aicl.Py.Json.Heads.{compact}
use aicl.Py.Result.{
  Result, attribute_error, err, map_ok, ok, struct_error, type_error, value_error, ◌>>=◌, ◌>>◌,
}
use aicl.Py.Struct.{Bytes, from_be}
use aicl.Py.Utf8.{Str, utf8_decode, utf8_encode}

-- `struct.pack(">H", len(b)) + b`
abbrev pub sized : Result Bytes → Result Bytes
sized r = do b ← r; n ← pack_int false 2 (pos (length b)); ok (n ++ b)

-- `_encode_str16`
unfoldable pub encode_str16 : Any → Result Bytes
encode_str16 (of_str s) = sized (utf8_encode s)
encode_str16 _ = err attribute_error

-- `struct.unpack_from` of an unsigned big-endian integer of `w` bytes.
unfoldable pub read_be : ℕ → Bytes → Result (ℕ × Bytes)
read_be w src =
    if ltb (length src) w then err struct_error else ok (from_be 0 (take w src), drop w src)

-- The same in little-endian order, and how such an integer is written.
unfoldable pub le : ℕ → ℕ → Bytes
le zero n = []
le (suc w) n = (n % 256) ∷ le w (n / 256)

unfoldable pub from_le : Bytes → ℕ
from_le [] = 0
from_le (b ∷ bs) = b + 256 * from_le bs

unfoldable pub read_le : ℕ → Bytes → Result (ℕ × Bytes)
read_le w src =
    if ltb (length src) w then err struct_error else ok (from_le (take w src), drop w src)

-- `struct.pack` of an unsigned little-endian integer of `w` bytes.
unfoldable pub pack_le : ℕ → ℤ → Result Bytes
pack_le w (pos n) = if ltb n (256 ^ w) then ok (le w n) else err struct_error
pack_le w (negsuc n) = err struct_error

-- `_decode_str16`
unfoldable pub decode_str16 : Bytes → Result (Str × Bytes)
decode_str16 src = do (n, r) ← read_be 2 src; s ← utf8_decode (take n r); ok (s, drop n r)

-- `v & 0xFFFFFFFF`
abbrev pub low_32 : Any → Result ℕ
low_32 (of_bool true) = ok 1
low_32 (of_bool false) = ok 0
low_32 (of_int (pos n)) = ok (n % 2 ^ 32)
low_32 (of_int (negsuc n)) = ok (2 ^ 32 - (n % 2 ^ 32 + 1))
low_32 _ = err type_error

-- `int(v * 1000)`. A text is repeated, which `int` mostly refuses; a text of digits is left out.
abbrev pub thousandths : Any → Result ℤ
thousandths (of_bool true) = ok (pos 1000)
thousandths (of_bool false) = ok (pos 0)
thousandths (of_int (pos n)) = ok (pos (n * 1000))
thousandths (of_int (negsuc n)) = ok (negsuc (n * 1000 + 999))
thousandths (of_float d) = times_thousand d
thousandths (of_str s) = err value_error
thousandths _ = err type_error

-- `min(n, 65535)`
abbrev pub at_most : ℤ → ℤ
at_most (pos n) = pos (min n 65535)
at_most (negsuc n) = negsuc n

-- The confidence in two bytes, highest first.
unfoldable pub encode_confidence : Any → Result Bytes
encode_confidence v = thousandths v >>= λ z. pack_int false 2 (at_most z)

-- The same, lowest first.
unfoldable pub encode_confidence_le : Any → Result Bytes
encode_confidence_le v = thousandths v >>= λ z. pack_le 2 (at_most z)

-- `if test: flags |= f`
abbrev pub set_flag : Bool → ℕ → ℕ → ℕ
set_flag test f flags = if test then bit_or flags f else flags

-- `bool(flags & f)`
abbrev pub has_flag : ℕ → ℕ → Bool
has_flag flags f = not (bit_and flags f == 0)

module _ (float_repr : ℕ → Str) (float_of : Str → ℕ) where
  -- `_encode_json_small`
  unfoldable pub encode_json_small : Any → Result Bytes
  encode_json_small v =
      if truthy v then sized (utf8_encode (dumps float_repr compact v)) else ok (0 ∷ 0 ∷ [])

  -- `json.loads` of bytes, for UTF-8 without a byte order mark.
  abbrev pub loads_bytes : Bytes → Result Any
  loads_bytes b = utf8_decode b >>= loads float_of

  -- `_decode_json_small`
  unfoldable pub decode_json_small : Bytes → Result (Any × Bytes)
  decode_json_small src = read_be 2 src >>= λ p.
      (if p.0 == 0
        then ok (of_dict no_keys, p.1)
        else map_ok (λ v. (v, drop p.0 p.1)) (loads_bytes (take p.0 p.1)))

  -- A part that is there only if the value is not empty, and the read of it if its flag is set.
  abbrev pub encode_if : Any → Result Bytes
  encode_if v = if truthy v then encode_json_small v else ok []

  abbrev pub decode_if : Bool → Bytes → Result (Any × Bytes)
  decode_if test src = if test then decode_json_small src else ok (of_dict no_keys, src)
