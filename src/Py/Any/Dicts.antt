-- ===== src/Py/Any/Dicts.antt =====
-- Lookups in dicts.
use aicl.Common.{
  Bool, Bool-cases, List, Option, [], ap, arith, if◌then◌else◌, inl, inr, none, refl, same_list,
  some, sym, ◌∙◌, ◌∷◌, ◌≡◌,
}
use aicl.Py.Any.{Any, Dict, build_dict, dict_get, dict_put, dict_update, key, no_keys}
use aicl.Py.Utf8.{Str}

-- What `get` finds in a dict that the statements built.
abbrev pub read_built : List (Bool × Str × Any) → Str → Option Any
read_built [] k = none
read_built ((c, j, v) ∷ es) k =
    if same_list j k then (if c then some v else read_built es k) else read_built es k

pub dict_get-build_dict :
    (es : List (Bool × Str × Any)) (k : Str) → dict_get (build_dict es) k ≡ read_built es k
unfolding dict_get build_dict
dict_get-build_dict [] k = refl
dict_get-build_dict ((c, j, v) ∷ es) k = ground (arith, dict_get-build_dict es k)

abbrev pub append_dict : Dict → Dict → Dict
append_dict no_keys e = e
append_dict (key k v d) e = key k v (append_dict d e)

append_dict_nil : (d : Dict) → append_dict d no_keys ≡ d
append_dict_nil no_keys = refl
append_dict_nil (key k v d) = ap (key k v) (append_dict_nil d)

append_dict_snoc :
    (d e : Dict) (k : Str) (v : Any)
    → append_dict (append_dict d (key k v no_keys)) e ≡ append_dict d (key k v e)
append_dict_snoc no_keys e k v = refl
append_dict_snoc (key j w d) e k v = ap (key j w) (append_dict_snoc d e k v)

dict_put_fresh :
    (d : Dict) (k : Str) (v : Any)
    → dict_get d k ≡ none
    → dict_put d k v ≡ append_dict d (key k v no_keys)
unfolding dict_get dict_put
dict_put_fresh no_keys k v h = refl
dict_put_fresh (key j w d) k v h = elim (Bool-cases (same_list j k)) [
  | inl same ↦ ground (arith, same, h)
  | inr differ ↦ ground (arith, differ, h, dict_put_fresh d k v)
]

-- The keys are in no part of the dict that was filled before.
abbrev pub FreshKeys : Dict → Dict → Type 0
FreshKeys d no_keys = Unit {0}
FreshKeys d (key k v e) = (dict_get d k ≡ none) × FreshKeys (dict_put d k v) e

pub dict_update-FreshKeys : (d e : Dict) → FreshKeys d e → dict_update d e ≡ append_dict d e
unfolding dict_update
dict_update-FreshKeys d no_keys h = sym (append_dict_nil d)
dict_update-FreshKeys d (key k v e) h =
    dict_update-FreshKeys (dict_put d k v) e h.1
    ∙ ap (λ (x : Dict). append_dict x e) (dict_put_fresh d k v h.0)
    ∙ append_dict_snoc d e k v
