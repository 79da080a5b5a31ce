-- ===== src/Py/Json/Load.antt =====
-- `json.loads`. How a finite float is read is a parameter.
use aicl.Common.{
  Bool, Option, [], drop, false, if◌then◌else◌, length, negsuc, none, pos, same_list, some, suc,
  take, true, zero, ℕ, ℤ, ◌*◌, ◌++◌, ◌+◌, ◌==◌, ◌^◌, ◌∷◌,
}
use aicl.Py.Any.{
  Any, Anys, Dict, codes, dict_update, item, key, no_items, no_keys, of_bool, of_dict, of_float,
  of_int, of_list, of_none, of_str,
}
use aicl.Py.Decimal.{digits_value}
use aicl.Py.Json.Scan.{scan_exponent, scan_fraction, scan_string, scan_whole, skip_space}
use aicl.Py.Result.{Result, err, map_ok, ok, out_of_fuel, value_error, ◌>>=◌}
use aicl.Py.Utf8.{Str}

abbrev pub signed_value : Bool → ℕ → ℤ
signed_value minus zero = pos 0
signed_value false n = pos n
signed_value true (suc n) = negsuc n

-- `json.loads` raises JSONDecodeError, which is a ValueError.
abbrev pub literal : Str → Any → Str → Result (Any × Str)
literal word v s =
    if same_list (take (length word) s) word then ok (v, drop (length word) s) else err value_error

module _ (float_of : Str → ℕ) where
  abbrev pub number_of : Bool → Str → Str × Str → Result (Any × Str)
  number_of minus whole ([], rest) = ok (of_int (signed_value minus (digits_value 0 whole)), rest)
  number_of minus whole (c ∷ tail, rest) =
      ok (of_float (float_of ((if minus then 0x2D ∷ whole else whole) ++ (c ∷ tail))), rest)

  abbrev pub both_parts : Str × Str → Str × Str
  both_parts (fraction, s) = (fraction ++ (scan_exponent s).0, (scan_exponent s).1)

  unfoldable pub after_whole : Bool → Option (Str × Str) → Result (Any × Str)
  unfolding scan_fraction scan_exponent
  after_whole minus none = err value_error
  after_whole minus (some (whole, s)) = number_of minus whole (both_parts (scan_fraction s))

  unfoldable pub scan_number : Str → Result (Any × Str)
  scan_number [] = err value_error
  scan_number (c ∷ s) =
      if c == 0x2D then after_whole true (scan_whole s) else after_whole false (scan_whole (c ∷ s))

  abbrev pub is_empty_list : Str → Bool
  is_empty_list [] = false
  is_empty_list (c ∷ s) = c == 0x5D

  abbrev pub is_empty_dict : Str → Bool
  is_empty_dict [] = false
  is_empty_dict (c ∷ s) = c == 0x7D

  -- What stands behind an item: the end of the list or dict, or a comma and the next item.
  abbrev pub separator : ℕ → Str → Result (Bool × Str)
  separator close [] = err value_error
  separator close (c ∷ s) =
      if c == close
      then ok (false, s)
      else if c == 0x2C
      then ok (true, skip_space s)
      else err value_error

  abbrev pub expect : ℕ → Str → Result Str
  expect x [] = err value_error
  expect x (c ∷ s) = if c == x then ok s else err value_error

  -- A value with no space before it, and what follows. Each function takes one off the fuel.
  unfoldable mutual
    pub scan_value : ℕ → Str → Result (Any × Str)
    scan_value zero s = err out_of_fuel
    scan_value (suc fuel) [] = err value_error
    scan_value (suc fuel) (c ∷ s) =
        let inner : Str = skip_space s in
        let listed : Result (Any × Str) =
          map_ok (λ p. (of_list p.0, p.1)) (scan_items fuel inner) in
        let keys : Result (Any × Str) =
          map_ok (λ p. (of_dict (dict_update no_keys p.0), p.1)) (scan_keys fuel inner) in
        if c == 0x22
        then map_ok (λ p. (of_str p.0, p.1)) (scan_string (suc (length s)) s)
        else if c == 0x7B
        then (if is_empty_dict inner then ok (of_dict no_keys, drop 1 inner) else keys)
        else if c == 0x5B
        then (if is_empty_list inner then ok (of_list no_items, drop 1 inner) else listed)
        else if c == 0x6E
        then literal (codes "null") of_none (c ∷ s)
        else if c == 0x74
        then literal (codes "true") (of_bool true) (c ∷ s)
        else if c == 0x66
        then literal (codes "false") (of_bool false) (c ∷ s)
        else if c == 0x4E
        then literal (codes "NaN") (of_float (0x7FF8 * 2 ^ 48)) (c ∷ s)
        else if c == 0x49
        then literal (codes "Infinity") (of_float (2047 * 2 ^ 52)) (c ∷ s)
        else if same_list (take 9 (c ∷ s)) (codes "-Infinity")
        then ok (of_float (2 ^ 63 + 2047 * 2 ^ 52), drop 9 (c ∷ s))
        else scan_number (c ∷ s)

    pub scan_items : ℕ → Str → Result (Anys × Str)
    scan_items zero s = err out_of_fuel
    scan_items (suc fuel) s = scan_value fuel s >>= λ p.
        (separator 0x5D (skip_space p.1) >>= λ q.
        let rest : Result (Anys × Str) = map_ok (λ r. (item p.0 r.0, r.1)) (scan_items fuel q.1) in
        (if q.0 then rest else ok (item p.0 no_items, q.1)))

    pub scan_keys : ℕ → Str → Result (Dict × Str)
    scan_keys zero s = err out_of_fuel
    scan_keys (suc fuel) s = expect 0x22 s >>= λ s1.
        (scan_string (suc (length s1)) s1 >>= λ k.
        (expect 0x3A (skip_space k.1) >>= λ s2.
        (scan_value fuel (skip_space s2) >>= λ p.
        (separator 0x7D (skip_space p.1) >>= λ q.
        let rest : Result (Dict × Str) =
          map_ok (λ r. (key k.0 p.0 r.0, r.1)) (scan_keys fuel q.1) in
        (if q.0 then rest else ok (key k.0 p.0 no_keys, q.1))))))

  abbrev pub at_end : Any × Str → Result Any
  at_end (v, []) = ok v
  at_end (v, c ∷ s) = err value_error

  -- A text that starts with the byte order mark is refused.
  abbrev pub starts_with_mark : Str → Bool
  starts_with_mark [] = false
  starts_with_mark (c ∷ s) = c == 0xFEFF

  unfoldable pub loads : Str → Result Any
  loads s =
      if starts_with_mark s
      then err value_error
      else (scan_value (suc (2 * length s)) (skip_space s) >>= λ p. at_end (p.0, skip_space p.1))
