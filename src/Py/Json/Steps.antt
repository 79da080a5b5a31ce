-- ===== src/Py/Json/Steps.antt =====
-- The steps of `loads` on what `dumps` prints in the compact style.
use aicl.Common.{
  Bool, [], ap, append-nil, arith, false, length, length-append, refl, suc, sym, true, ℕ, ◌*◌, ◌++◌,
  ◌∙◌, ◌∷◌, ◌≡◌,
}
use aicl.Py.Any.{
  Any, Anys, Dict, codes, dict_update, item, key, no_items, no_keys, of_bool, of_dict, of_list,
  of_none, of_str,
}
use aicl.Py.Json.Dump.{dump_bool, dump_string, escape_chars}
use aicl.Py.Json.Heads.{StartsValue}
use aicl.Py.Json.Load.{is_empty_list, loads, scan_items, scan_keys, scan_value, starts_with_mark}
use aicl.Py.Json.Scan.{is_space, skip_space}
use aicl.Py.Json.Strings.{length-escape_chars, scan_string-escape_chars}
use aicl.Py.Result.{map_ok, ok}
use aicl.Py.Utf8.{Str}

pub skip_space_none : (c : ℕ) (s : Str) → is_space c ≡ false → skip_space (c ∷ s) ≡ c ∷ s
unfolding skip_space
skip_space_none c s h = ground (arith, h)

module _ (float_repr : ℕ → Str) (float_of : Str → ℕ) where
  pub skip_space-StartsValue :
      (s rest : Str) → StartsValue float_repr float_of s → skip_space (s ++ rest) ≡ s ++ rest
  skip_space-StartsValue [] rest h = absurd h
  skip_space-StartsValue (c ∷ s) rest h = skip_space_none c (s ++ rest) h.0

  pub StartsValue-is_empty_list :
      (s rest : Str)
      → StartsValue float_repr float_of s
      → is_empty_list float_of (s ++ rest) ≡ false
  StartsValue-is_empty_list [] rest h = absurd h
  StartsValue-is_empty_list (c ∷ s) rest h = h.1

  pub scan_value-dump_string :
      (f : ℕ) (s rest : Str)
      → scan_value float_of (suc f) (dump_string false s ++ rest) ≡ ok (of_str s, rest)
  unfolding scan_value
  scan_value-dump_string f s rest = ap (map_ok (λ (p : Str × Str). (of_str p.0, p.1))) (
      scan_string-escape_chars (suc (length (escape_chars false s ++ rest))) s rest
        (omega (arith, length-append (escape_chars false s) rest, length-escape_chars s)))

  pub scan_value-dump_bool :
      (f : ℕ) (b : Bool) (rest : Str)
      → scan_value float_of (suc f) (dump_bool b ++ rest) ≡ ok (of_bool b, rest)
  unfolding scan_value
  scan_value-dump_bool f true rest = refl
  scan_value-dump_bool f false rest = refl

  pub scan_value_null :
      (f : ℕ) (rest : Str) → scan_value float_of (suc f) (codes "null" ++ rest) ≡ ok (of_none, rest)
  unfolding scan_value
  scan_value_null f rest = refl

  -- A list or a dict with something in it, from what is read behind the bracket.
  pub scan_value_list :
      (f : ℕ) (s : Str) {vs : Anys} {rest : Str}
      → skip_space s ≡ s
      → is_empty_list float_of s ≡ false
      → scan_items float_of f s ≡ ok (vs, rest)
      → scan_value float_of (suc f) (0x5B ∷ s) ≡ ok (of_list vs, rest)
  unfolding scan_value
  scan_value_list f s h k e = rw (h, k, e)

  pub scan_value_dict :
      (f : ℕ) (s : Str) {d : Dict} {rest : Str}
      → scan_keys float_of f (0x22 ∷ s) ≡ ok (d, rest)
      → scan_value float_of (suc f) (0x7B ∷ 0x22 ∷ s) ≡ ok (of_dict (dict_update no_keys d), rest)
  unfolding scan_value
  scan_value_dict f s e = rw (skip_space_none 0x22 s refl, e)

  -- The last item, and one with others behind it.
  pub scan_items_last :
      (f : ℕ) (s rest : Str) {v : Any}
      → scan_value float_of f s ≡ ok (v, 0x5D ∷ rest)
      → scan_items float_of (suc f) s ≡ ok (item v no_items, rest)
  unfolding scan_items
  scan_items_last f s rest e = rw (e, skip_space_none 0x5D rest refl)

  pub scan_items_more :
      (f : ℕ) (s t : Str) {v : Any} {vs : Anys} {rest : Str}
      → scan_value float_of f s ≡ ok (v, 0x2C ∷ t)
      → skip_space t ≡ t
      → scan_items float_of f t ≡ ok (vs, rest)
      → scan_items float_of (suc f) s ≡ ok (item v vs, rest)
  unfolding scan_items
  scan_items_more f s t e h k = rw (e, skip_space_none 0x2C t refl, h, k)

  -- One key with its value, the last and one with others behind it.
  pub scan_keys_last :
      (f : ℕ) (k s rest : Str) {v : Any}
      → skip_space s ≡ s
      → scan_value float_of f s ≡ ok (v, 0x7D ∷ rest)
      → scan_keys float_of (suc f) (dump_string false k ++ (0x3A ∷ s)) ≡ ok (key k v no_keys, rest)
  unfolding scan_keys
  scan_keys_last f k s rest h e = rw (
    scan_string-escape_chars (suc (length (escape_chars false k ++ (0x3A ∷ s)))) k (0x3A ∷ s)
        (omega (arith, length-append (escape_chars false k) (0x3A ∷ s), length-escape_chars k)),
    skip_space_none 0x3A s refl,
    h,
    e,
    skip_space_none 0x7D rest refl,
  )

  pub scan_keys_more :
      (f : ℕ) (k s t : Str) {v : Any} {d : Dict} {rest : Str}
      → skip_space s ≡ s
      → scan_value float_of f s ≡ ok (v, 0x2C ∷ t)
      → skip_space t ≡ t
      → scan_keys float_of f t ≡ ok (d, rest)
      → scan_keys float_of (suc f) (dump_string false k ++ (0x3A ∷ s)) ≡ ok (key k v d, rest)
  unfolding scan_keys
  scan_keys_more f k s t h e l m = rw (
    scan_string-escape_chars (suc (length (escape_chars false k ++ (0x3A ∷ s)))) k (0x3A ∷ s)
        (omega (arith, length-append (escape_chars false k) (0x3A ∷ s), length-escape_chars k)),
    skip_space_none 0x3A s refl,
    h,
    e,
    skip_space_none 0x2C t refl,
    l,
    m,
  )

  pub scan_value_no_items :
      (f : ℕ) (rest : Str)
      → scan_value float_of (suc f) (0x5B ∷ 0x5D ∷ rest) ≡ ok (of_list no_items, rest)
  unfolding scan_value skip_space
  scan_value_no_items f rest = refl

  pub scan_value_no_keys :
      (f : ℕ) (rest : Str)
      → scan_value float_of (suc f) (0x7B ∷ 0x7D ∷ rest) ≡ ok (of_dict no_keys, rest)
  unfolding scan_value skip_space
  scan_value_no_keys f rest = refl

  StartsValue-starts_with_mark :
      (s : Str) → StartsValue float_repr float_of s → starts_with_mark float_of s ≡ false
  StartsValue-starts_with_mark [] h = absurd h
  StartsValue-starts_with_mark (c ∷ s) h = h.2

  pub loads_scanned :
      (s : Str) {v : Any}
      → StartsValue float_repr float_of s
      → scan_value float_of (suc (2 * length s)) (s ++ []) ≡ ok (v, [])
      → loads float_of s ≡ ok v
  unfolding loads skip_space
  loads_scanned s h e = rw (
    StartsValue-starts_with_mark s h,
    ap skip_space (sym (append-nil s)) ∙ skip_space-StartsValue s [] h,
    e,
  )
