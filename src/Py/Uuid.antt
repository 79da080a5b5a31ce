-- ===== src/Py/Uuid.antt =====
-- `uuid.UUID` of a text, its `bytes` and its `str`, and `bytes.hex` and `bytes.fromhex`. The digits of
-- other scripts, which `int` knows too, are left out.
use aicl.Common.{
  Bool, [], drop, false, if◌then◌else◌, leb, length, none, not, reverse, same_list, some, suc, take,
  true, zero, ℕ, ◌%◌, ◌&&◌, ◌*◌, ◌++◌, ◌+◌, ◌-◌, ◌/◌, ◌==◌, ◌||◌, ◌∷◌,
}
use aicl.Py.Any.{codes}
use aicl.Py.Json.Dump.{hex_digit}
use aicl.Py.Json.Scan.{hex_value}
use aicl.Py.Result.{Result, err, guard, map_ok, ok, value_error, ◌>>◌}
use aicl.Py.Struct.{Bytes, be}
use aicl.Py.Utf8.{Str}

-- `s.replace(word, "")`, where `skip` characters of a match are still to go.
unfoldable pub remove_word : Str → ℕ → Str → Str
remove_word word skip [] = []
remove_word word (suc skip) (c ∷ s) = remove_word word skip s
remove_word word zero (c ∷ s) =
    let without = remove_word word (length word - 1) s in
    let kept = remove_word word zero s in
    if same_list (take (length word) (c ∷ s)) word then without else c ∷ kept

-- `s.replace(x, "")` of one character.
unfoldable pub remove_char : ℕ → Str → Str
remove_char x [] = []
remove_char x (c ∷ s) = let rest = remove_char x s in if c == x then rest else c ∷ rest

abbrev pub is_brace : ℕ → Bool
is_brace c = c == 0x7B || c == 0x7D

unfoldable pub drop_while : (ℕ → Bool) → Str → Str
drop_while test [] = []
drop_while test (c ∷ s) = let rest = drop_while test s in if test c then rest else c ∷ s

abbrev pub strip : (ℕ → Bool) → Str → Str
strip test s = reverse (drop_while test (reverse (drop_while test s)))

abbrev pub is_blank : ℕ → Bool
is_blank c = c == 0x20 || (leb 0x09 c && leb c 0x0D)

-- Digits of `int(s, 16)`: one underscore may stand between two of them.
unfoldable pub hex_digits : Bool → ℕ → Str → Result ℕ
hex_digits gap acc [] = if gap then err value_error else ok acc
hex_digits gap acc (c ∷ s) = elim (hex_value c) [
  | none ↦ if c == 0x5F && not gap then hex_digits true acc s else err value_error
  | some v ↦ hex_digits false (acc * 16 + v) s
]

abbrev pub after_sign : Str → Str
after_sign [] = []
after_sign (c ∷ s) = if c == 0x2B then s else c ∷ s

-- The prefix `0x`, behind which an underscore may stand.
abbrev pub after_prefix : Str → Str
after_prefix (c ∷ d ∷ e ∷ s) =
    if c == 0x30 && (d == 0x78 || d == 0x58)
    then (if e == 0x5F then s else e ∷ s)
    else c ∷ d ∷ e ∷ s
after_prefix s = s

-- `int(s, 16)` of a text without a minus.
unfoldable pub int_16 : Str → Result ℕ
unfolding hex_digits
int_16 s = hex_digits true 0 (after_prefix (after_sign (strip is_blank s)))

abbrev pub bare_uuid : Str → Str
bare_uuid s =
    remove_char 0x2D
      (strip is_brace (remove_word (codes "uuid:") 0 (remove_word (codes "urn:") 0 s)))

abbrev pub uuid_of_digits : Str → Result Bytes
uuid_of_digits h = do guard (length h == 32) value_error; map_ok (be 16) (int_16 h)

-- `uuid.UUID(s).bytes`
unfoldable pub uuid_bytes : Str → Result Bytes
uuid_bytes s = uuid_of_digits (bare_uuid s)

-- `b.hex()`
abbrev pub hex : Bytes → Str
hex [] = []
hex (b ∷ bs) = hex_digit (b / 16) ∷ hex_digit (b % 16) ∷ hex bs

abbrev pub dashed : Str → Str
dashed h =
    take 8 h
    ++ (0x2D
        ∷ (take 4 (drop 8 h)
            ++ (0x2D
                ∷ (take 4 (drop 12 h) ++ (0x2D ∷ (take 4 (drop 16 h) ++ (0x2D ∷ drop 20 h)))))))

-- `str(uuid.UUID(bytes=b))`
unfoldable pub uuid_text : Bytes → Result Str
uuid_text b = do guard (length b == 16) value_error; ok (dashed (hex b))

-- `bytes.fromhex`: pairs of digits, with spaces before a pair.
unfoldable pub from_hex : Str → Result Bytes
from_hex [] = ok []
from_hex (c ∷ []) = if is_blank c then ok [] else err value_error
from_hex (c ∷ d ∷ s) =
    let later = from_hex (d ∷ s) in
    let rest = from_hex s in
    if is_blank c then later else elim (hex_value c) [
      | none ↦ err value_error
      | some u ↦ elim (hex_value d) [
        | none ↦ err value_error
        | some v ↦ map_ok (λ bs. (u * 16 + v) ∷ bs) rest
      ]
    ]
