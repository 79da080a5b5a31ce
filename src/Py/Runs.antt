-- ===== src/Py/Runs.antt =====
-- Checks of the library functions against known values.
use aicl.Common.{[], negsuc, pos, refl, true, ◌*◌, ◌+◌, ◌^◌, ◌∷◌, ◌≡◌}
use aicl.Py.Any.{codes}
use aicl.Py.Crc.{crc32}
use aicl.Py.Float.{narrow, of_thousandths, one_bits, times_thousand, widen}
use aicl.Py.Ints.{pack_int}
use aicl.Py.Result.{err, ok, overflow_error, unicode_error}
use aicl.Py.Struct.{be}
use aicl.Py.Utf8.{utf8_decode, utf8_encode}
use aicl.Py.Uuid.{drop_while, hex_digits, int_16, remove_char, remove_word, uuid_bytes}

crc_check : crc32 (0x31 ∷ 0x32 ∷ 0x33 ∷ 0x34 ∷ 0x35 ∷ 0x36 ∷ 0x37 ∷ 0x38 ∷ 0x39 ∷ []) ≡ 0xCBF4_3926
unfolding crc32
crc_check = refl

-- 1.0, 0.1, the smallest subnormal single, and a double past the largest single.
narrow_one : narrow one_bits ≡ ok 0x3F80_0000
unfolding narrow
narrow_one = refl

narrow_tenth : narrow 0x3FB9_9999_9999_999A ≡ ok 0x3DCC_CCCD
unfolding narrow
narrow_tenth = refl

widen_tenth : widen 0x3DCC_CCCD ≡ 0x3FB9_9999_A000_0000
unfolding widen
widen_tenth = refl

widen_least : widen 1 ≡ 0x36A0_0000_0000_0000
unfolding widen
widen_least = refl

narrow_least : narrow 0x36A0_0000_0000_0000 ≡ ok 1
unfolding narrow
narrow_least = refl

narrow_huge : narrow 0x47F0_0000_0000_0000 ≡ err overflow_error
unfolding narrow
narrow_huge = refl

pack_minus_two : pack_int true 2 (negsuc 1) ≡ ok (0xFF ∷ 0xFE ∷ [])
unfolding pack_int be
pack_minus_two = refl

-- "é€𝄞"
utf8_three :
    utf8_encode (0xE9 ∷ 0x20AC ∷ 0x1D11E ∷ [])
    ≡ ok (0xC3 ∷ 0xA9 ∷ 0xE2 ∷ 0x82 ∷ 0xAC ∷ 0xF0 ∷ 0x9D ∷ 0x84 ∷ 0x9E ∷ [])
unfolding utf8_encode
utf8_three = refl

utf8_overlong : utf8_decode (0xC0 ∷ 0x80 ∷ []) ≡ err unicode_error
unfolding utf8_decode
utf8_overlong = refl

thousandths_run :
    (of_thousandths 1 ≡ 0x3F50_624D_D2F1_A9FC)
    × (of_thousandths 999 ≡ 0x3FEF_F7CE_D916_872B)
    × (of_thousandths 65535 ≡ 0x4050_623D_70A3_D70A)
    × (times_thousand (of_thousandths 999) ≡ ok (pos 999))
    × (times_thousand (of_thousandths 1001) ≡ ok (pos 1000))
unfolding of_thousandths times_thousand
thousandths_run = (refl, refl, refl, refl, refl)

uuid_run :
    uuid_bytes (codes "{0000000a-0000-0000-0000-00000000000B}") ≡ ok (be 16 (10 * 2 ^ 96 + 11))
unfolding uuid_bytes int_16 hex_digits remove_char remove_word drop_while be
uuid_run = refl
