-- ===== src/Py/Json/RoundTrip.antt =====
-- JSON in the compact style: `loads` reads back what `dumps` prints.
use aicl.Common.{
  [], ap, append_assoc, arith, false, length, length-append, refl, suc, zero, ℕ, ◌*◌, ◌++◌, ◌+◌,
  ◌<◌, ◌∙◌, ◌∷◌, ◌≡◌,
}
use aicl.Py.Any.{
  Any, Anys, Dict, item, key, no_items, no_keys, of_bool, of_dict, of_float, of_int, of_list,
  of_none, of_str,
}
use aicl.Py.Any.Dicts.{dict_update-FreshKeys}
use aicl.Py.Json.Dump.{dump_first, dump_first_key, dump_int, dump_next, dump_string, dumps}
use aicl.Py.Json.Heads.{
  AllJson, AllJsonKeys, IsJson, StartsValue, append_StartsValue, compact, dump_float_finite,
  dump_int-NumberStarts, dumps-StartsValue, scan_value_number,
}
use aicl.Py.Json.Load.{loads, scan_items, scan_keys, scan_value}
use aicl.Py.Json.Numbers.{Ends, scan_number-dump_int}
use aicl.Py.Json.Steps.{
  StartsValue-is_empty_list, loads_scanned, scan_items_last, scan_items_more, scan_keys_last,
  scan_keys_more, scan_value-dump_bool, scan_value-dump_string, scan_value_dict, scan_value_list,
  scan_value_no_items, scan_value_no_keys, scan_value_null, skip_space-StartsValue, skip_space_none,
}
use aicl.Py.Result.{ok}
use aicl.Py.Utf8.{Str}

abbrev NotEmpty : Anys → Type 0
NotEmpty no_items = ⊥
NotEmpty (item v vs) = Unit {0}

abbrev HasKeys : Dict → Type 0
HasKeys no_keys = ⊥
HasKeys (key k v d) = Unit {0}

module _ (float_repr : ℕ → Str) (float_of : Str → ℕ) where
  abbrev text : Any → Str
  text v = dumps float_repr compact v

  first_StartsValue :
      (v : Any) (t : Str)
      → IsJson float_repr float_of v
      → StartsValue float_repr float_of (text v ++ t)
  first_StartsValue v t h =
      append_StartsValue float_repr float_of (text v) t (dumps-StartsValue float_repr float_of v h)

  mutual
    unfolding dumps IsJson

    scan_value-dumps :
        (f : ℕ) (v : Any) (rest : Str)
        → IsJson float_repr float_of v
        → 2 * length (text v) < f
        → Ends rest
        → scan_value float_of f (text v ++ rest) ≡ ok (v, rest)
    scan_value-dumps zero v rest h k e = absurd (omega arith)
    scan_value-dumps (suc f) of_none rest h k e = scan_value_null float_repr float_of f rest
    scan_value-dumps (suc f) (of_bool b) rest h k e =
        scan_value-dump_bool float_repr float_of f b rest
    scan_value-dumps (suc f) (of_int z) rest h k e =
        scan_value_number float_repr float_of f (dump_int z) rest (of_int z)
          (dump_int-NumberStarts float_repr float_of z) (scan_number-dump_int float_of z rest e)
    scan_value-dumps (suc f) (of_float d) rest h k e =
        ap (λ (s : Str). scan_value float_of (suc f) (s ++ rest))
          (dump_float_finite float_repr float_of d h.0)
        ∙ scan_value_number float_repr float_of f (float_repr d) rest (of_float d) h.1 (h.2 rest e)
    scan_value-dumps (suc f) (of_str s) rest h k e =
        scan_value-dump_string float_repr float_of f s rest
    scan_value-dumps (suc f) (of_list no_items) rest h k e =
        scan_value_no_items float_repr float_of f rest
    scan_value-dumps (suc f) (of_list (item v vs)) rest h k e =
        scan_value_list float_repr float_of f (dump_first float_repr compact (item v vs) ++ rest)
          (skip_space-StartsValue float_repr float_of (dump_first float_repr compact (item v vs))
            rest (first_StartsValue v (dump_next float_repr compact vs) h.0))
          (StartsValue-is_empty_list float_repr float_of (dump_first float_repr compact (item v vs))
            rest (first_StartsValue v (dump_next float_repr compact vs) h.0))
          (scan_items-dump_first f (item v vs) rest tt h (omega arith))
    scan_value-dumps (suc f) (of_dict no_keys) rest h k e =
        scan_value_no_keys float_repr float_of f rest
    scan_value-dumps (suc f) (of_dict (key j v d)) rest h k e =
        scan_value_dict float_repr float_of f _
          (scan_keys-dump_first_key f (key j v d) rest tt h.1 (omega arith))
        ∙ ap (λ (x : Dict). ok (of_dict x, rest)) (dict_update-FreshKeys no_keys (key j v d) h.0)

    scan_items-dump_first :
        (f : ℕ) (vs : Anys) (rest : Str)
        → NotEmpty vs
        → AllJson float_repr float_of vs
        → 2 * length (dump_first float_repr compact vs) + 1 < f
        → scan_items float_of f (dump_first float_repr compact vs ++ rest) ≡ ok (vs, rest)
    scan_items-dump_first zero vs rest n h k = absurd (omega arith)
    scan_items-dump_first (suc f) no_items rest n h k = absurd n
    scan_items-dump_first (suc f) (item v no_items) rest n h k =
        ap (scan_items float_of (suc f)) (append_assoc (text v) (0x5D ∷ []) rest)
        ∙ scan_items_last float_repr float_of f (text v ++ (0x5D ∷ rest)) rest (
            scan_value-dumps f v (0x5D ∷ rest) h.0
              (omega (arith, length-append (text v) (0x5D ∷ []))) refl)
    scan_items-dump_first (suc f) (item v (item w ws)) rest n h k =
        let more : Str = dump_first float_repr compact (item w ws) in
        ap (scan_items float_of (suc f)) (append_assoc (text v) (0x2C ∷ more) rest)
        ∙ scan_items_more float_repr float_of f (text v ++ (0x2C ∷ (more ++ rest))) (more ++ rest)
            (scan_value-dumps f v (0x2C ∷ (more ++ rest)) h.0
              (omega (arith, length-append (text v) (0x2C ∷ more))) refl)
            (skip_space-StartsValue float_repr float_of more rest
              (first_StartsValue w (dump_next float_repr compact ws) h.1.0))
            (scan_items-dump_first f (item w ws) rest tt h.1
              (omega (arith, length-append (text v) (0x2C ∷ more))))

    scan_keys-dump_first_key :
        (f : ℕ) (d : Dict) (rest : Str)
        → HasKeys d
        → AllJsonKeys float_repr float_of d
        → 2 * length (dump_first_key float_repr compact d) + 1 < f
        → scan_keys float_of f (dump_first_key float_repr compact d ++ rest) ≡ ok (d, rest)
    scan_keys-dump_first_key zero d rest n h k = absurd (omega arith)
    scan_keys-dump_first_key (suc f) no_keys rest n h k = absurd n
    scan_keys-dump_first_key (suc f) (key j v no_keys) rest n h k =
        ap (scan_keys float_of (suc f)) (
          append_assoc (dump_string false j) (0x3A ∷ (text v ++ (0x7D ∷ []))) rest
          ∙ ap (λ (t : Str). dump_string false j ++ (0x3A ∷ t))
              (append_assoc (text v) (0x7D ∷ []) rest))
        ∙ scan_keys_last float_repr float_of f j (text v ++ (0x7D ∷ rest)) rest
            (skip_space-StartsValue float_repr float_of (text v) (0x7D ∷ rest)
              (dumps-StartsValue float_repr float_of v h.0))
            (scan_value-dumps f v (0x7D ∷ rest) h.0
              (omega (
                arith,
                length-append (dump_string false j) (0x3A ∷ (text v ++ (0x7D ∷ []))),
                length-append (text v) (0x7D ∷ []),
              ))
              refl)
    scan_keys-dump_first_key (suc f) (key j v (key l w d)) rest n h k =
        let more : Str = dump_first_key float_repr compact (key l w d) in
        ap (scan_keys float_of (suc f)) (
          append_assoc (dump_string false j) (0x3A ∷ (text v ++ (0x2C ∷ more))) rest
          ∙ ap (λ (t : Str). dump_string false j ++ (0x3A ∷ t))
              (append_assoc (text v) (0x2C ∷ more) rest))
        ∙ scan_keys_more float_repr float_of f j (text v ++ (0x2C ∷ (more ++ rest))) (more ++ rest)
            (skip_space-StartsValue float_repr float_of (text v) (0x2C ∷ (more ++ rest))
              (dumps-StartsValue float_repr float_of v h.0))
            (scan_value-dumps f v (0x2C ∷ (more ++ rest)) h.0
              (omega (
                arith,
                length-append (dump_string false j) (0x3A ∷ (text v ++ (0x2C ∷ more))),
                length-append (text v) (0x2C ∷ more),
              ))
              refl)
            (skip_space_none 0x22 _ refl)
            (scan_keys-dump_first_key f (key l w d) rest tt h.1 (
              omega (
                arith,
                length-append (dump_string false j) (0x3A ∷ (text v ++ (0x2C ∷ more))),
                length-append (text v) (0x2C ∷ more),
              )))

  -- `loads` reads back what `dumps` prints in the compact style of a value whose floats are read
  -- back and whose dicts have distinct keys.
  pub loads-dumps : (v : Any) → IsJson float_repr float_of v → loads float_of (text v) ≡ ok v
  loads-dumps v h =
      loads_scanned float_repr float_of (text v) (dumps-StartsValue float_repr float_of v h)
        (scan_value-dumps (suc (2 * length (text v))) v [] h (omega arith) tt)
