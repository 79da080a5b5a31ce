-- ===== src/Py/Json/Strings.antt =====
-- JSON strings: what `dumps` escapes, `loads` reads back.
use aicl.Common.{
  Bool-cases, Option, Option-cases, [], ap, append_assoc, arith, drop, false, inl, inr, length,
  length-append, ltb, ltb→lt, none, refl, some, suc, zero, ℕ, ◌%◌, ◌*◌, ◌++◌, ◌+◌, ◌/◌, ◌<◌, ◌==◌,
  ◌∙◌, ◌∷◌, ◌≡◌, ◌≤◌,
}
use aicl.Py.Json.Dump.{
  escape_as, escape_char, escape_chars, hex_digit, long_escape, short_escape, unicode_escape,
}
use aicl.Py.Json.Scan.{hex_value, scan_escape, scan_hex, scan_string}
use aicl.Py.Result.{map_ok, ok}
use aicl.Py.Utf8.{Str}

hex_value-hex_digit : (n : ℕ) → n < 16 → hex_value (hex_digit n) ≡ some n
hex_value-hex_digit n h = ground arith

scan_hex_step :
    (k acc n : ℕ) (t : Str)
    → n < 16
    → scan_hex (suc k) acc (hex_digit n ∷ t) ≡ scan_hex k (acc * 16 + n) t
scan_hex_step k acc n t h = ground (arith, hex_value-hex_digit n h)

scan_hex-unicode_escape :
    (c : ℕ) (t : Str)
    → c < 0x10000
    → scan_hex 4 0 (
        hex_digit (c / 4096 % 16)
        ∷ hex_digit (c / 256 % 16)
        ∷ hex_digit (c / 16 % 16)
        ∷ hex_digit (c % 16)
        ∷ t)
      ≡ ok (c, t)
scan_hex-unicode_escape c t h =
    scan_hex_step 3 0 (c / 4096 % 16)
      (hex_digit (c / 256 % 16) ∷ hex_digit (c / 16 % 16) ∷ hex_digit (c % 16) ∷ t) (omega arith)
    ∙ scan_hex_step 2 (0 * 16 + c / 4096 % 16) (c / 256 % 16)
        (hex_digit (c / 16 % 16) ∷ hex_digit (c % 16) ∷ t) (omega arith)
    ∙ scan_hex_step 1 ((0 * 16 + c / 4096 % 16) * 16 + c / 256 % 16) (c / 16 % 16)
        (hex_digit (c % 16) ∷ t) (omega arith)
    ∙ scan_hex_step 0 (((0 * 16 + c / 4096 % 16) * 16 + c / 256 % 16) * 16 + c / 16 % 16) (c % 16) t
        (omega arith)
    ∙ ap (λ (n : ℕ). ok (n, t)) (omega arith)

-- The escape of a control character.
scan_escape_control :
    (c : ℕ) (t : Str) → c < 0x20 → scan_escape (drop 1 (unicode_escape c) ++ t) ≡ ok (c, t)
unfolding scan_escape
scan_escape_control c t h = ground (arith, scan_hex-unicode_escape c t (omega arith))

scan_escape_short : (c e : ℕ) (t : Str) → short_escape c ≡ some e → scan_escape (e ∷ t) ≡ ok (c, t)
unfolding scan_escape
scan_escape_short c e t h = ground (arith, h)

short_escape-none : (c : ℕ) → short_escape c ≡ none → ((c == 0x22) ≡ false) × ((c == 0x5C) ≡ false)
short_escape-none c h = ground (arith, h)

scan_string_escape :
    (fuel c : ℕ) (r t : Str)
    → scan_escape r ≡ ok (c, t)
    → scan_string (suc fuel) (0x5C ∷ r) ≡ map_ok (λ q. (c ∷ q.0, q.1)) (scan_string fuel t)
unfolding scan_string
scan_string_escape fuel c r t h = rw h

scan_string_long :
    (fuel c : ℕ) (t : Str)
    → short_escape c ≡ none
    → scan_string (suc fuel) (long_escape false c ++ t)
      ≡ map_ok (λ q. (c ∷ q.0, q.1)) (scan_string fuel t)
unfolding scan_string
scan_string_long fuel c t h = elim (Bool-cases (ltb c 0x20)) [
  | inl control ↦ ground (
    arith,
    control,
    scan_string_escape fuel c (drop 1 (unicode_escape c) ++ t) t
        (scan_escape_control c t (ltb→lt c 0x20 control)),
  )
  | inr above ↦ ground (arith, above, short_escape-none c h)
]

-- One character, escaped or not.
scan_string_char :
    (fuel c : ℕ) (t : Str)
    → scan_string (suc fuel) (escape_char false c ++ t)
      ≡ map_ok (λ q. (c ∷ q.0, q.1)) (scan_string fuel t)
unfolding escape_char
scan_string_char fuel c t = elim (Option-cases (short_escape c)) [
  | inl long ↦
      ap (λ (o : Option ℕ). scan_string (suc fuel) (escape_as false c o ++ t)) long
      ∙ scan_string_long fuel c t long
  | inr (e, quick) ↦
      ap (λ (o : Option ℕ). scan_string (suc fuel) (escape_as false c o ++ t)) quick
      ∙ scan_string_escape fuel c (e ∷ t) t (scan_escape_short c e t quick)
]

pub scan_string-escape_chars :
    (fuel : ℕ) (s rest : Str)
    → length s < fuel
    → scan_string fuel (escape_chars false s ++ rest) ≡ ok (s, rest)
unfolding escape_chars scan_string
scan_string-escape_chars zero s rest h = absurd (omega arith)
scan_string-escape_chars (suc fuel) [] rest h = refl
scan_string-escape_chars (suc fuel) (c ∷ s) rest h =
    ap (scan_string (suc fuel)) (append_assoc (escape_char false c) (escape_chars false s) rest)
    ∙ scan_string_char fuel c (escape_chars false s ++ rest)
    ∙ ap (map_ok (λ (q : Str × Str). (c ∷ q.0, q.1)))
        (scan_string-escape_chars fuel s rest (omega arith))

escape_char_long : (c : ℕ) → 1 ≤ length (escape_char false c)
unfolding escape_char
escape_char_long c = ground arith

pub length-escape_chars : (s : Str) → length s < length (escape_chars false s)
unfolding escape_chars
length-escape_chars [] = omega arith
length-escape_chars (c ∷ s) = omega (
  arith,
  length-append (escape_char false c) (escape_chars false s),
  escape_char_long c,
  length-escape_chars s,
)
