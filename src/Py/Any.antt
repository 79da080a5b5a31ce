-- ===== src/Py/Any.antt =====
-- Python values of a field typed `Any`, as far as the code makes and reads them: None, bool, int,
-- float (its 64 bits), str, list and dict with `str` keys in insertion order.
pub mod Dicts
use aicl.Common.{
  Bool, List, Option, [], false, if◌then◌else◌, negsuc, none, not, pos, same_list, some, true, ℕ, ℤ,
  ◌%◌, ◌==◌, ◌^◌, ◌∷◌,
}
use aicl.Py.Utf8.{Str}
use Prim.Native.Char.{code}
use Prim.Native.String.{String}

-- A text literal as a list of code points.
abbrev pub codes : String → Str
codes String.[] = []
codes (String.◌∷◌ c s) = code c ∷ codes s

mutual
  pub data Any : Type 0 where
    of_none : Any
    of_bool : Bool → Any
    of_int : ℤ → Any
    of_float : ℕ → Any
    of_str : Str → Any
    of_list : Anys → Any
    of_dict : Dict → Any

  pub data Anys : Type 0 where
    no_items : Anys
    item : Any → Anys → Anys

  pub data Dict : Type 0 where
    no_keys : Dict
    key : Str → Any → Dict → Dict

-- `bool(v)`
abbrev pub truthy : Any → Bool
truthy of_none = false
truthy (of_bool b) = b
truthy (of_int (pos n)) = not (n == 0)
truthy (of_int (negsuc n)) = true
truthy (of_float d) = not (d % 2 ^ 63 == 0)
truthy (of_str []) = false
truthy (of_str (c ∷ s)) = true
truthy (of_list no_items) = false
truthy (of_list (item v vs)) = true
truthy (of_dict no_keys) = false
truthy (of_dict (key k v d)) = true

-- `d.get(k)`
unfoldable pub dict_get : Dict → Str → Option Any
dict_get no_keys k = none
dict_get (key j v d) k = let rest = dict_get d k in if same_list j k then some v else rest

abbrev pub get_or : Option Any → Any → Any
get_or none other = other
get_or (some v) other = v

-- `d[k] = v`: an old key keeps its place, a new one goes last.
unfoldable pub dict_put : Dict → Str → Any → Dict
dict_put no_keys k v = key k v no_keys
dict_put (key j w d) k v =
    let rest = dict_put d k v in if same_list j k then key j v d else key j w rest

-- `{**d, **e}`
unfoldable pub dict_update : Dict → Dict → Dict
unfolding dict_put
dict_update d no_keys = d
dict_update d (key k v e) = dict_update (dict_put d k v) e

-- A dict is built by statements `if test: d[k] = v` on different keys.
unfoldable pub build_dict : List (Bool × Str × Any) → Dict
build_dict [] = no_keys
build_dict ((c, k, v) ∷ es) = let rest = build_dict es in if c then key k v rest else rest
