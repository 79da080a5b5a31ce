-- ===== src/Py/Json/Heads.antt =====
-- JSON values that are read back, and how their texts start.
use aicl.Common.{
  Bool, [], arith, false, inl, inr, leb, lt→ltb, negsuc, not, pos, refl, same_list, subst, suc, sym,
  take, true, ℕ, ℤ, ◌%◌, ◌&&◌, ◌*◌, ◌++◌, ◌<◌, ◌==◌, ◌^◌, ◌∙◌, ◌∷◌, ◌≡◌, ◌⊎◌,
}
use aicl.Py.Any.{
  Any, Anys, Dict, codes, item, key, no_items, no_keys, of_bool, of_dict, of_float, of_int, of_list,
  of_none, of_str,
}
use aicl.Py.Any.Dicts.{FreshKeys}
use aicl.Py.Decimal.{is_digit}
use aicl.Py.Json.Dump.{Style, dump_float, dump_int, dumps}
use aicl.Py.Json.Load.{scan_number, scan_value}
use aicl.Py.Json.Numbers.{Ends, show_number_head}
use aicl.Py.Json.Scan.{is_space}
use aicl.Py.Result.{ok}
use aicl.Py.Utf8.{Str}

abbrev pub compact : Style
compact = record { item_separator = 0x2C ∷ []; key_separator = 0x3A ∷ []; ensure_ascii = false }

-- A number starts with a digit, or with a minus and a digit.
abbrev pub NumberStarts : Str → Type 0
NumberStarts [] = ⊥
NumberStarts (c ∷ []) = is_digit c ≡ true
NumberStarts (c ∷ d ∷ s) = (is_digit c ≡ true) ⊎ ((c ≡ 0x2D) × (is_digit d ≡ true))

module _ (float_repr : ℕ → Str) (float_of : Str → ℕ) where
  -- A finite float that is read back from what it prints as.
  abbrev pub FloatReads : ℕ → Type 0
  FloatReads d =
      (d % 2 ^ 63 < 2047 * 2 ^ 52)
      × NumberStarts (float_repr d)
      × ((rest : Str)
          → Ends rest
          → scan_number float_of (float_repr d ++ rest) ≡ ok (of_float d, rest))

  -- A value whose floats are read back, with distinct keys in each dict.
  unfoldable mutual
    pub IsJson : Any → Type 0
    IsJson of_none = Unit {0}
    IsJson (of_bool b) = Unit {0}
    IsJson (of_int z) = Unit {0}
    IsJson (of_float d) = FloatReads d
    IsJson (of_str s) = Unit {0}
    IsJson (of_list vs) = AllJson vs
    IsJson (of_dict d) = FreshKeys no_keys d × AllJsonKeys d

    pub AllJson : Anys → Type 0
    AllJson no_items = Unit {0}
    AllJson (item v vs) = IsJson v × AllJson vs

    pub AllJsonKeys : Dict → Type 0
    AllJsonKeys no_keys = Unit {0}
    AllJsonKeys (key k v d) = IsJson v × AllJsonKeys d

  -- None of the characters that `scan_value` looks for.
  abbrev is_other : ℕ → Bool
  is_other c = leb c 0x39 && not (c == 0x22)

  digit_is_other : (c : ℕ) → is_digit c ≡ true → is_other c ≡ true
  digit_is_other c h = ground (arith, h)

  digit_no_infinity :
      (c : ℕ) (s : Str) → is_digit c ≡ true → same_list (take 9 (c ∷ s)) (codes "-Infinity") ≡ false
  digit_no_infinity c s h = ground (arith, h)

  scan_value_other :
      (f c : ℕ) (s : Str)
      → is_other c ≡ true
      → same_list (take 9 (c ∷ s)) (codes "-Infinity") ≡ false
      → scan_value float_of (suc f) (c ∷ s) ≡ scan_number float_of (c ∷ s)
  unfolding scan_value
  scan_value_other f c s h e =
      let t : ((c == 0x22) ≡ false)
          × ((c == 0x7B) ≡ false)
          × ((c == 0x5B) ≡ false)
          × ((c == 0x6E) ≡ false)
          × ((c == 0x74) ≡ false)
          × ((c == 0x66) ≡ false)
          × ((c == 0x4E) ≡ false)
          × ((c == 0x49) ≡ false) =
        ground (arith, h) in
      rw (t.0, t.1, t.2, t.3, t.4, t.5, t.6, t.7, e)

  pub scan_value_number :
      (f : ℕ) (s rest : Str) (v : Any)
      → NumberStarts s
      → scan_number float_of (s ++ rest) ≡ ok (v, rest)
      → scan_value float_of (suc f) (s ++ rest) ≡ ok (v, rest)
  unfolding scan_value
  scan_value_number f [] rest v h e = absurd h
  scan_value_number f (c ∷ []) rest v h e =
      scan_value_other f c rest (digit_is_other c h) (digit_no_infinity c rest h) ∙ e
  scan_value_number f (c ∷ d ∷ s) rest v (inl h) e =
      scan_value_other f c (d ∷ (s ++ rest)) (digit_is_other c h)
        (digit_no_infinity c (d ∷ (s ++ rest)) h)
      ∙ e
  scan_value_number f (c ∷ d ∷ s) rest v (inr (minus, h)) e =
      scan_value_other f c (d ∷ (s ++ rest)) (ground (arith, minus)) (ground (arith, minus, h)) ∙ e

  abbrev pub StartsValue : Str → Type 0
  StartsValue [] = ⊥
  StartsValue (c ∷ s) = (is_space c ≡ false) × ((c == 0x5D) ≡ false) × ((c == 0xFEFF) ≡ false)

  NumberStarts-StartsValue : (s : Str) → NumberStarts s → StartsValue s
  NumberStarts-StartsValue [] h = h
  NumberStarts-StartsValue (c ∷ []) h = ground arith
  NumberStarts-StartsValue (c ∷ d ∷ s) h = ground arith

  digit_NumberStarts : (c : ℕ) (t : Str) → is_digit c ≡ true → NumberStarts (c ∷ t)
  digit_NumberStarts c [] h = h
  digit_NumberStarts c (d ∷ t) h = inl h

  pub dump_int-NumberStarts : (z : ℤ) → NumberStarts (dump_int z)
  dump_int-NumberStarts (pos n) =
      let (c, t, is, low, high) = show_number_head n in
      subst NumberStarts (sym is) (digit_NumberStarts c t (ground arith))
  dump_int-NumberStarts (negsuc n) =
      let (c, t, is, low, high) = show_number_head (suc n) in
      subst (λ (s : Str). NumberStarts (0x2D ∷ s)) (sym is) (inr (refl, ground arith))

  pub dump_float_finite :
      (d : ℕ) → d % 2 ^ 63 < 2047 * 2 ^ 52 → dump_float float_repr d ≡ float_repr d
  dump_float_finite d h = rw (lt→ltb (d % 2 ^ 63) (2047 * 2 ^ 52) h)

  pub dumps-StartsValue : (v : Any) → IsJson v → StartsValue (dumps float_repr compact v)
  unfolding dumps IsJson
  dumps-StartsValue of_none h = (refl, refl, refl)
  dumps-StartsValue (of_bool true) h = (refl, refl, refl)
  dumps-StartsValue (of_bool false) h = (refl, refl, refl)
  dumps-StartsValue (of_int z) h = NumberStarts-StartsValue (dump_int z) (dump_int-NumberStarts z)
  dumps-StartsValue (of_float d) h =
      subst StartsValue (sym (dump_float_finite d h.0))
        (NumberStarts-StartsValue (float_repr d) h.1)
  dumps-StartsValue (of_str s) h = (refl, refl, refl)
  dumps-StartsValue (of_list vs) h = (refl, refl, refl)
  dumps-StartsValue (of_dict d) h = (refl, refl, refl)

  pub append_StartsValue : (s t : Str) → StartsValue s → StartsValue (s ++ t)
  append_StartsValue [] t h = absurd h
  append_StartsValue (c ∷ s) t h = h
