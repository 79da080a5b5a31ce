-- ===== src/Py/Json/Dump.antt =====
-- `json.dumps`. How a finite float is printed is a parameter.
use aicl.Common.{
  Bool, Option, [], false, if◌then◌else◌, ltb, negsuc, none, pos, some, suc, true, ℕ, ℤ, ◌%◌, ◌&&◌,
  ◌*◌, ◌++◌, ◌+◌, ◌-◌, ◌/◌, ◌==◌, ◌^◌, ◌||◌, ◌∷◌,
}
use aicl.Py.Any.{
  Any, Anys, Dict, codes, item, key, no_items, no_keys, of_bool, of_dict, of_float, of_int, of_list,
  of_none, of_str,
}
use aicl.Py.Decimal.{show_number}
use aicl.Py.Utf8.{Str}

-- The arguments `separators` and `ensure_ascii`.
pub record Style : Type 0 where
  pub item_separator : Str
  pub key_separator : Str
  pub ensure_ascii : Bool

abbrev pub hex_digit : ℕ → ℕ
hex_digit n = if ltb n 10 then 0x30 + n else 0x57 + n

-- `\uXXXX`
abbrev pub unicode_escape : ℕ → Str
unicode_escape c =
    0x5C
    ∷ 0x75
    ∷ hex_digit (c / 4096 % 16)
    ∷ hex_digit (c / 256 % 16)
    ∷ hex_digit (c / 16 % 16)
    ∷ hex_digit (c % 16)
    ∷ []

-- A code point above 0xFFFF is written as a pair of surrogates.
abbrev pub wide_escape : ℕ → Str
wide_escape c =
    if ltb c 0x10000
    then unicode_escape c
    else unicode_escape (0xD800 + (c - 0x10000) / 1024 % 1024)
      ++ unicode_escape (0xDC00 + (c - 0x10000) % 1024)

abbrev pub short_escape : ℕ → Option ℕ
short_escape c =
    if c == 0x22
    then some 0x22
    else if c == 0x5C
    then some 0x5C
    else if c == 0x08
    then some 0x62
    else if c == 0x0C
    then some 0x66
    else if c == 0x0A
    then some 0x6E
    else if c == 0x0D
    then some 0x72
    else if c == 0x09
    then some 0x74
    else none

abbrev pub long_escape : Bool → ℕ → Str
long_escape ascii c = if ltb c 0x20 || (ascii && ltb 0x7E c) then wide_escape c else c ∷ []

abbrev pub escape_as : Bool → ℕ → Option ℕ → Str
escape_as ascii c none = long_escape ascii c
escape_as ascii c (some e) = 0x5C ∷ e ∷ []

unfoldable pub escape_char : Bool → ℕ → Str
escape_char ascii c = escape_as ascii c (short_escape c)

unfoldable pub escape_chars : Bool → Str → Str
escape_chars ascii [] = 0x22 ∷ []
escape_chars ascii (c ∷ s) = escape_char ascii c ++ escape_chars ascii s

abbrev pub dump_string : Bool → Str → Str
dump_string ascii s = 0x22 ∷ escape_chars ascii s

abbrev pub dump_int : ℤ → Str
dump_int (pos n) = show_number n
dump_int (negsuc n) = 0x2D ∷ show_number (suc n)

abbrev pub dump_bool : Bool → Str
dump_bool true = codes "true"
dump_bool false = codes "false"

module _ (float_repr : ℕ → Str) where
  abbrev pub dump_float : ℕ → Str
  dump_float d =
      if ltb (d % 2 ^ 63) (2047 * 2 ^ 52)
      then float_repr d
      else if ltb (2047 * 2 ^ 52) (d % 2 ^ 63)
      then codes "NaN"
      else if d == 2047 * 2 ^ 52
      then codes "Infinity"
      else codes "-Infinity"

  unfoldable mutual
    pub dumps : Style → Any → Str
    dumps st of_none = codes "null"
    dumps st (of_bool b) = dump_bool b
    dumps st (of_int z) = dump_int z
    dumps st (of_float d) = dump_float d
    dumps st (of_str s) = dump_string st.ensure_ascii s
    dumps st (of_list vs) = 0x5B ∷ dump_first st vs
    dumps st (of_dict d) = 0x7B ∷ dump_first_key st d

    pub dump_first : Style → Anys → Str
    dump_first st no_items = 0x5D ∷ []
    dump_first st (item v vs) = dumps st v ++ dump_next st vs

    pub dump_next : Style → Anys → Str
    dump_next st no_items = 0x5D ∷ []
    dump_next st (item v vs) = st.item_separator ++ (dumps st v ++ dump_next st vs)

    pub dump_first_key : Style → Dict → Str
    dump_first_key st no_keys = 0x7D ∷ []
    dump_first_key st (key k v d) =
        dump_string st.ensure_ascii k ++ (st.key_separator ++ (dumps st v ++ dump_next_key st d))

    pub dump_next_key : Style → Dict → Str
    dump_next_key st no_keys = 0x7D ∷ []
    dump_next_key st (key k v d) =
        st.item_separator
        ++ (dump_string st.ensure_ascii k
            ++ (st.key_separator ++ (dumps st v ++ dump_next_key st d)))
