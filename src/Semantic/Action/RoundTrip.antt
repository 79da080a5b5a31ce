-- ===== src/Semantic/Action/RoundTrip.antt =====
-- aicl/semantic/types.py: an action behind `to_dict` and `from_dict`.
use aicl.Common.{
  Bool, Option, [], ap, arith, false, if◌then◌else◌, negsuc, none, pos, refl, some, true, ℕ, ℤ, ◌∙◌,
  ◌∷◌, ◌≡◌,
}
use aicl.Py.Any.{
  Any, Dict, codes, get_or, key, no_keys, of_bool, of_dict, of_float, of_int, of_str, truthy,
}
use aicl.Py.Any.Dicts.{dict_get-build_dict, read_built}
use aicl.Py.Float.{one_bits}
use aicl.Py.Result.{ok}
use aicl.Py.Utf8.{Str}
use aicl.Semantic.Action.{
  ModelAction, action_from_dict, action_statements, action_to_dict, not_one, read_action,
}
use aicl.Semantic.Intents.{ModelIntent, intent_of}
use aicl.Semantic.Intents.Codes.{intent_of-intent_value}
use mathlib.Core.Path.{fun_ext}

-- The fields have the types that the class declares.
pub data IsTyped : ModelAction → Type 0 where
  typed :
      (intent : ModelIntent) (target : Str) (inputs params result : Dict) (confidence : ℕ)
      (stream cancel : Bool) (correlation_id : Str) (deadline_ms : ℤ) (metadata : Dict)
      → IsTyped (record {
        intent = intent;
        target = of_str target;
        inputs = of_dict inputs;
        params = of_dict params;
        result = of_dict result;
        confidence = of_float confidence;
        stream = of_bool stream;
        cancel = of_bool cancel;
        correlation_id = of_str correlation_id;
        deadline_ms = of_int deadline_ms;
        metadata = of_dict metadata;
      })

-- A field that is left out has the default, which `from_dict` puts back.
pub str_back :
    (s : Str) → get_or (if truthy (of_str s) then some (of_str s) else none) (of_str []) ≡ of_str s
str_back [] = refl
str_back (c ∷ s) = refl

pub dict_back :
    (d : Dict)
    → get_or (if truthy (of_dict d) then some (of_dict d) else none) (of_dict no_keys) ≡ of_dict d
dict_back no_keys = refl
dict_back (key k v d) = refl

pub bool_back :
    (b : Bool) → get_or (if b then some (of_bool true) else none) (of_bool false) ≡ of_bool b
bool_back true = refl
bool_back false = refl

pub int_back :
    (z : ℤ)
    → get_or (if truthy (of_int z) then some (of_int z) else none) (of_int (pos 0)) ≡ of_int z
int_back (pos n) = ground arith
int_back (negsuc n) = refl

pub one_back :
    (d : ℕ)
    → get_or (if not_one (of_float d) then some (of_float d) else none) (of_float one_bits)
      ≡ of_float d
one_back d = ground arith

-- `from_dict` gives an action with fields of the declared types back from what `to_dict` makes of it.
pub action_from_dict-action_to_dict :
    (a : ModelAction) → IsTyped a → action_from_dict (action_to_dict a) ≡ ok a
unfolding action_from_dict action_to_dict
action_from_dict-action_to_dict a (typed i t inp par res c st ca co dl me) =
    ap
      (λ (get : Str → Option Any).
        read_action get (intent_of (get_or (get (codes "intent")) (of_str []))))
      (fun_ext (dict_get-build_dict (action_statements a)))
    ∙ ap (read_action (read_built (action_statements a))) (intent_of-intent_value i)
    ∙ (λ j. ok (record {
      intent = i;
      target = str_back t j;
      inputs = dict_back inp j;
      params = dict_back par j;
      result = dict_back res j;
      confidence = one_back c j;
      stream = bool_back st j;
      cancel = bool_back ca j;
      correlation_id = str_back co j;
      deadline_ms = int_back dl j;
      metadata = dict_back me j;
    }))
