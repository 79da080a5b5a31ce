-- ===== src/Py/Json/Scan.antt =====
-- The parts of a text that `json.loads` reads: spaces, strings and the digits of numbers.
use aicl.Common.{
  Bool, Option, [], if◌then◌else◌, leb, ltb, none, some, suc, zero, ℕ, ◌&&◌, ◌*◌, ◌++◌, ◌+◌, ◌-◌,
  ◌==◌, ◌||◌, ◌∷◌,
}
use aicl.Py.Decimal.{is_digit}
use aicl.Py.Result.{Result, err, map_ok, ok, out_of_fuel, value_error, ◌>>=◌}
use aicl.Py.Utf8.{Str}

abbrev pub is_space : ℕ → Bool
is_space c = c == 0x20 || (c == 0x09 || (c == 0x0A || c == 0x0D))

unfoldable pub skip_space : Str → Str
skip_space [] = []
skip_space (c ∷ s) = let rest = skip_space s in if is_space c then rest else c ∷ s

-- The value of a hexadecimal digit.
abbrev pub hex_value : ℕ → Option ℕ
hex_value c =
    if is_digit c
    then some (c - 0x30)
    else if leb 0x61 c && leb c 0x66
    then some (c - 0x57)
    else if leb 0x41 c && leb c 0x46
    then some (c - 0x37)
    else none

-- The four digits behind `\u`, with what follows.
abbrev pub scan_hex : ℕ → ℕ → Str → Result (ℕ × Str)
scan_hex zero acc s = ok (acc, s)
scan_hex (suc n) acc [] = err value_error
scan_hex (suc n) acc (c ∷ s) = elim (hex_value c) [
  | none ↦ err value_error
  | some v ↦ scan_hex n (acc * 16 + v) s
]

abbrev pub simple_escape : ℕ → Option ℕ
simple_escape c =
    if c == 0x22
    then some 0x22
    else if c == 0x5C
    then some 0x5C
    else if c == 0x2F
    then some 0x2F
    else if c == 0x62
    then some 0x08
    else if c == 0x66
    then some 0x0C
    else if c == 0x6E
    then some 0x0A
    else if c == 0x72
    then some 0x0D
    else if c == 0x74
    then some 0x09
    else none

-- A low surrogate written behind a high one is joined with it.
abbrev pub join_low : ℕ → Str → Result (ℕ × Str) → ℕ × Str
join_low high s (ok (low, rest)) =
    if leb 0xDC00 low && leb low 0xDFFF
    then (0x10000 + ((high - 0xD800) * 1024 + (low - 0xDC00)), rest)
    else (high, s)
join_low high s (err e) = (high, s)

abbrev pub join_surrogates : ℕ → Str → ℕ × Str
join_surrogates high (c ∷ d ∷ s) =
    if c == 0x5C && d == 0x75 then join_low high (c ∷ d ∷ s) (scan_hex 4 0 s) else (high, c ∷ d ∷ s)
join_surrogates high s = (high, s)

abbrev pub after_hex : ℕ × Str → ℕ × Str
after_hex (c, s) = if leb 0xD800 c && leb c 0xDBFF then join_surrogates c s else (c, s)

-- One character of a string behind the backslash.
unfoldable pub scan_escape : Str → Result (ℕ × Str)
scan_escape [] = err value_error
scan_escape (c ∷ s) =
    if c == 0x75
    then map_ok after_hex (scan_hex 4 0 s)
    else elim (simple_escape c) [ none ↦ err value_error | some v ↦ ok (v, s) ]

-- A string behind its opening quote, with what follows it.
unfoldable pub scan_string : ℕ → Str → Result (Str × Str)
scan_string zero s = err out_of_fuel
scan_string (suc fuel) [] = err value_error
scan_string (suc fuel) (c ∷ s) =
    let escaped : Result (Str × Str) =
      scan_escape s >>= λ p. map_ok (λ q. (p.0 ∷ q.0, q.1)) (scan_string fuel p.1) in
    let plain : Result (Str × Str) = map_ok (λ q. (c ∷ q.0, q.1)) (scan_string fuel s) in
    if c == 0x22
    then ok ([], s)
    else if c == 0x5C
    then escaped
    else if ltb c 0x20
    then err value_error
    else plain

unfoldable pub span_digits : Str → Str × Str
span_digits [] = ([], [])
span_digits (c ∷ s) =
    let (digits, rest) = span_digits s in if is_digit c then (c ∷ digits, rest) else ([], c ∷ s)

-- `(\.[0-9]+)?` and `([eE][-+]?[0-9]+)?`: what matches, and what follows.
abbrev pub when_digits : Str → Str → Str × Str → Str × Str
when_digits head s ([], rest) = ([], s)
when_digits head s (c ∷ digits, rest) = (head ++ (c ∷ digits), rest)

unfoldable pub scan_fraction : Str → Str × Str
unfolding span_digits
scan_fraction [] = ([], [])
scan_fraction (c ∷ s) =
    if c == 0x2E then when_digits (c ∷ []) (c ∷ s) (span_digits s) else ([], c ∷ s)

unfoldable pub scan_signed : ℕ → Str → Str × Str
scan_signed e [] = ([], e ∷ [])
scan_signed e (c ∷ s) =
    if c == 0x2B || c == 0x2D
    then when_digits (e ∷ c ∷ []) (e ∷ c ∷ s) (span_digits s)
    else when_digits (e ∷ []) (e ∷ c ∷ s) (span_digits (c ∷ s))

unfoldable pub scan_exponent : Str → Str × Str
unfolding span_digits
scan_exponent [] = ([], [])
scan_exponent (c ∷ s) = if c == 0x65 || c == 0x45 then scan_signed c s else ([], c ∷ s)

-- `0|[1-9][0-9]*`
unfoldable pub scan_whole : Str → Option (Str × Str)
unfolding span_digits
scan_whole [] = none
scan_whole (c ∷ s) =
    if c == 0x30
    then some (c ∷ [], s)
    else if is_digit c
    then some (c ∷ (span_digits s).0, (span_digits s).1)
    else none
