-- ===== src/Semantic/Adapter/Output.antt =====
-- aicl/semantic/adapter.py: `parse_model_output`. `upper` is Python's `str.upper`, which follows tables
-- of Unicode, and `float_of` reads the digits of a float.
use aicl.Common.{
  Bool, List, Option, [], false, if◌then◌else◌, leb, none, pos, some, ℕ, ◌&&◌, ◌==◌, ◌||◌, ◌∷◌,
}
use aicl.Py.Any.{Any, Dict, codes, key, no_keys, of_bool, of_dict, of_float, of_int, of_str}
use aicl.Py.Float.{one_bits}
use aicl.Py.Json.Load.{loads}
use aicl.Py.Result.{Result, err, ok, semantic_error, value_error}
use aicl.Py.Utf8.{Str}
use aicl.Py.Uuid.{strip}
use aicl.Sdk.Capabilities.{occurs_in}
use aicl.Semantic.Action.{ModelAction, action_from_dict}
use aicl.Semantic.Intents.{ModelIntent, all_intents, intent_value, return_result}

-- The characters that `str.strip` takes off.
abbrev pub is_white : ℕ → Bool
is_white c =
    (leb 0x09 c && leb c 0x0D)
    || ((leb 0x1C c && leb c 0x20)
        || (c == 0x85
            || (c == 0xA0
                || (c == 0x1680
                    || ((leb 0x2000 c && leb c 0x200A)
                        || (c == 0x2028
                            || (c == 0x2029 || (c == 0x202F || (c == 0x205F || c == 0x3000)))))))))

-- The first intent whose value stands in the text.
unfoldable pub first_intent : Str → List ModelIntent → Option ModelIntent
first_intent text [] = none
first_intent text (i ∷ intents) =
    let rest = first_intent text intents in if occurs_in (intent_value i) text then some i else rest

-- A ModelAction with its defaults, but for the inputs and the result.
abbrev pub plain_action : ModelIntent → Dict → Dict → ModelAction
plain_action intent inputs result = record {
  intent = intent;
  target = of_str [];
  inputs = of_dict inputs;
  params = of_dict no_keys;
  result = of_dict result;
  confidence = of_float one_bits;
  stream = of_bool false;
  cancel = of_bool false;
  correlation_id = of_str [];
  deadline_ms = of_int (pos 0);
  metadata = of_dict no_keys;
}

abbrev pub text_dict : Str → Dict
text_dict raw = key (codes "text") (of_str raw) no_keys

abbrev pub keyword_action : Str → Option ModelIntent → ModelAction
keyword_action raw (some intent) = plain_action intent (text_dict raw) no_keys
keyword_action raw none = plain_action return_result no_keys (text_dict raw)

module _ (float_of : Str → ℕ) (upper : Str → Str) where
  abbrev pub without_json : Str → ModelAction
  without_json raw = keyword_action raw (first_intent (upper raw) all_intents)

  -- What `json.loads` made of the text: a ValueError is passed over, and so is a value that is no dict.
  abbrev pub from_json : Str → Result Any → Result ModelAction
  from_json raw (ok (of_dict d)) = action_from_dict d
  from_json raw (ok v) = ok (without_json raw)
  from_json raw (err value_error) = ok (without_json raw)
  from_json raw (err e) = err e

  abbrev pub parse_stripped : Str → Result ModelAction
  parse_stripped [] = err semantic_error
  parse_stripped (c ∷ raw) = from_json (c ∷ raw) (loads float_of (c ∷ raw))

  unfoldable pub parse_model_output : Str → Result ModelAction
  parse_model_output raw = parse_stripped (strip is_white raw)
