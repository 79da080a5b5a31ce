-- ===== src/Py/Show.antt =====
-- `str` and `repr` of a value. The digits of a float and the `repr` of a text are arguments.
use aicl.Common.{Bool, [], false, if◌then◌else◌, ltb, true, ℕ, ◌%◌, ◌*◌, ◌++◌, ◌==◌, ◌^◌, ◌∷◌}
use aicl.Py.Any.{
  Any, Anys, Dict, codes, item, key, no_items, no_keys, of_bool, of_dict, of_float, of_int, of_list,
  of_none, of_str,
}
use aicl.Py.Json.Dump.{dump_int}
use aicl.Py.Utf8.{Str}

module _ (float_repr : ℕ → Str) (text_repr : Str → Str) where
  abbrev pub show_bool : Bool → Str
  show_bool true = codes "True"
  show_bool false = codes "False"

  -- `repr(f)`
  abbrev pub show_float : ℕ → Str
  show_float d =
      if ltb (d % 2 ^ 63) (2047 * 2 ^ 52)
      then float_repr d
      else if ltb (2047 * 2 ^ 52) (d % 2 ^ 63)
      then codes "nan"
      else if d == 2047 * 2 ^ 52
      then codes "inf"
      else codes "-inf"

  -- `repr(v)`
  unfoldable mutual
    pub repr_of : Any → Str
    repr_of of_none = codes "None"
    repr_of (of_bool b) = show_bool b
    repr_of (of_int z) = dump_int z
    repr_of (of_float d) = show_float d
    repr_of (of_str s) = text_repr s
    repr_of (of_list vs) = 0x5B ∷ repr_first vs
    repr_of (of_dict d) = 0x7B ∷ repr_first_key d

    pub repr_first : Anys → Str
    repr_first no_items = 0x5D ∷ []
    repr_first (item v vs) = repr_of v ++ repr_next vs

    pub repr_next : Anys → Str
    repr_next no_items = 0x5D ∷ []
    repr_next (item v vs) = codes ", " ++ (repr_of v ++ repr_next vs)

    pub repr_first_key : Dict → Str
    repr_first_key no_keys = 0x7D ∷ []
    repr_first_key (key k v d) = text_repr k ++ (codes ": " ++ (repr_of v ++ repr_next_key d))

    pub repr_next_key : Dict → Str
    repr_next_key no_keys = 0x7D ∷ []
    repr_next_key (key k v d) =
        codes ", " ++ (text_repr k ++ (codes ": " ++ (repr_of v ++ repr_next_key d)))

  -- `str(v)`
  abbrev pub str_of : Any → Str
  str_of (of_str s) = s
  str_of v = repr_of v
