-- ===== src/Py/Utf8.antt =====
-- `str.encode("utf-8")` and `bytes.decode("utf-8")`: a `str` is a list of code points, surrogates
-- do not encode, and the decoder is strict (no overlong form, no surrogate, nothing past 0x10FFFF).
pub mod Laws
pub mod Ascii
pub mod Total
use aicl.Common.{
  Bool, List, [], if◌then◌else◌, leb, length, ltb, not, suc, zero, ℕ, ◌%◌, ◌&&◌, ◌*◌, ◌++◌, ◌+◌,
  ◌-◌, ◌/◌, ◌<◌, ◌∷◌, ◌≤◌, ◌⊎◌,
}
use aicl.Py.Result.{Result, err, ok, out_of_fuel, unicode_error, ◌>>=◌, ◌>>◌}
use aicl.Py.Struct.{Bytes}

abbrev pub Str : Type 0
Str = List ℕ

-- A code point that UTF-8 encodes: below 0x110000 and no surrogate.
abbrev pub IsScalar : ℕ → Type 0
IsScalar c = (c < 0xD800) ⊎ ((0xE000 ≤ c) × (c < 0x110000))

pub is_surrogate : ℕ → Bool
is_surrogate c = leb 0xD800 c && ltb c 0xE000

pub encode_char : ℕ → Result Bytes
unfolding is_surrogate
encode_char c =
    if ltb c 0x80
    then ok (c ∷ [])
    else if ltb c 0x800
    then ok ((0xC0 + c / 64) ∷ (0x80 + c % 64) ∷ [])
    else if is_surrogate c
    then err unicode_error
    else if ltb c 0x10000
    then ok ((0xE0 + c / 4096) ∷ (0x80 + c / 64 % 64) ∷ (0x80 + c % 64) ∷ [])
    else if ltb c 0x110000
    then ok
        ((0xF0 + c / 262144) ∷ (0x80 + c / 4096 % 64) ∷ (0x80 + c / 64 % 64) ∷ (0x80 + c % 64) ∷ [])
    else err unicode_error

unfoldable pub utf8_encode : Str → Result Bytes
unfolding encode_char
utf8_encode [] = ok []
utf8_encode (c ∷ s) = do here ← encode_char c; there ← utf8_encode s; ok (here ++ there)

-- A continuation byte, 0x80 to 0xBF.
pub is_cont : ℕ → Bool
is_cont b = leb 0x80 b && ltb b 0xC0

-- The rest of a sequence behind its lead byte: the code point and what follows.
pub tail_two : ℕ → Bytes → Result (ℕ × Bytes)
unfolding is_cont
tail_two lead (b ∷ src) =
    if is_cont b then ok ((lead - 0xC0) * 64 + (b - 0x80), src) else err unicode_error
tail_two lead [] = err unicode_error

pub tail_three : ℕ → Bytes → Result (ℕ × Bytes)
unfolding is_cont is_surrogate
tail_three lead (b ∷ d ∷ src) =
    let c = (lead - 0xE0) * 4096 + (b - 0x80) * 64 + (d - 0x80) in
    if is_cont b && is_cont d && (leb 0x800 c && not (is_surrogate c))
    then ok (c, src)
    else err unicode_error
tail_three lead _ = err unicode_error

pub tail_four : ℕ → Bytes → Result (ℕ × Bytes)
unfolding is_cont
tail_four lead (b ∷ d ∷ e ∷ src) =
    let c = (lead - 0xF0) * 262144 + (b - 0x80) * 4096 + (d - 0x80) * 64 + (e - 0x80) in
    if is_cont b && is_cont d && is_cont e && (leb 0x10000 c && ltb c 0x110000)
    then ok (c, src)
    else err unicode_error
tail_four lead _ = err unicode_error

pub decode_char : ℕ → Bytes → Result (ℕ × Bytes)
unfolding tail_two tail_three tail_four
decode_char b src =
    if ltb b 0x80
    then ok (b, src)
    else if ltb b 0xC2
    then err unicode_error
    else if ltb b 0xE0
    then tail_two b src
    else if ltb b 0xF0
    then tail_three b src
    else if ltb b 0xF5
    then tail_four b src
    else err unicode_error

-- One code point a round.
pub decode_chars : ℕ → Bytes → Result Str
unfolding decode_char
decode_chars fuel [] = ok []
decode_chars zero (b ∷ src) = err out_of_fuel
decode_chars (suc fuel) (b ∷ src) = do
  (c, rest) ← decode_char b src
  s ← decode_chars fuel rest
  ok (c ∷ s)

-- Each round takes a byte at least, so `length src` rounds are enough.
unfoldable pub utf8_decode : Bytes → Result Str
unfolding decode_chars
utf8_decode src = decode_chars (length src) src
