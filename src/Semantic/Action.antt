-- ===== src/Semantic/Action.antt =====
-- aicl/semantic/types.py: the class ModelAction. A dataclass does not check the types of its fields,
-- so all but the intent hold any value.
pub mod RoundTrip
use aicl.Common.{
  Bool, List, Option, [], false, if◌then◌else◌, is_some, leb, ltb, negsuc, none, not, pos,
  same_list, some, true, ◌&&◌, ◌*◌, ◌++◌, ◌+◌, ◌==◌, ◌^◌, ◌||◌, ◌∷◌,
}
use aicl.Py.Any.{
  Any, Anys, Dict, build_dict, codes, dict_get, get_or, item, no_items, no_keys, of_bool, of_dict,
  of_float, of_int, of_list, of_str, truthy,
}
use aicl.Py.Float.{one_bits}
use aicl.Py.Result.{Result, err, map_ok, ok, semantic_error, type_error, ◌>>=◌, ◌>>◌}
use aicl.Py.Utf8.{Str}
use aicl.Sdk.Capabilities.{occurs_in}
use aicl.Semantic.Intents.{
  ModelIntent, call_model, call_tool, classify, intent_of, intent_value, read_memory, write_memory,
}

pub record ModelAction : Type 0 where
  pub intent : ModelIntent
  pub target : Any
  pub inputs : Any
  pub params : Any
  pub result : Any
  pub confidence : Any
  pub stream : Any
  pub cancel : Any
  pub correlation_id : Any
  pub deadline_ms : Any
  pub metadata : Any

-- `v != 1.0`
abbrev pub not_one : Any → Bool
not_one (of_bool b) = not b
not_one (of_int (pos n)) = not (n == 1)
not_one (of_float d) = not (d == one_bits)
not_one _ = true

-- `0.0 <= v <= 1.0`. The doubles from 0.0 to 1.0 are in the order of their bits; -0.0 is the number
-- with the sign bit alone.
abbrev pub in_unit : Any → Result Bool
in_unit (of_bool b) = ok true
in_unit (of_int (pos n)) = ok (leb n 1)
in_unit (of_int (negsuc n)) = ok false
in_unit (of_float d) = ok (leb d one_bits || d == 2 ^ 63)
in_unit _ = err type_error

-- `v < 0`: a float with the sign bit that is neither -0.0 nor NaN.
abbrev pub is_negative : Any → Result Bool
is_negative (of_bool b) = ok false
is_negative (of_int (pos n)) = ok false
is_negative (of_int (negsuc n)) = ok true
is_negative (of_float d) = ok (ltb (2 ^ 63) d && leb d (2 ^ 63 + 2047 * 2 ^ 52))
is_negative _ = err type_error

-- `"tool_name" in v`
abbrev pub has_item : Anys → Str → Bool
has_item no_items s = false
has_item (item (of_str t) vs) s = same_list t s || has_item vs s
has_item (item _ vs) s = has_item vs s

unfoldable pub contains_text : Any → Str → Result Bool
unfolding dict_get occurs_in
contains_text (of_dict d) s = ok (is_some (dict_get d s))
contains_text (of_list vs) s = ok (has_item vs s)
contains_text (of_str t) s = ok (occurs_in s t)
contains_text _ s = err type_error

-- The messages of `validate`.
pub data ActionError : Type 0 where
  confidence_out_of_range : ActionError
  negative_deadline : ActionError
  requires_target : ActionError
  requires_tool_name : ActionError

abbrev pub needs_target : ModelIntent → Bool
needs_target classify = true
needs_target call_model = true
needs_target call_tool = true
needs_target read_memory = true
needs_target write_memory = true
needs_target _ = false

abbrev pub is_call_tool : ModelIntent → Bool
is_call_tool call_tool = true
is_call_tool _ = false

-- `if test: errors.append(e)`
abbrev pub report : Bool → ActionError → List ActionError
report true e = e ∷ []
report false e = []

unfoldable pub validate : ModelAction → Result (List ActionError)
unfolding contains_text
validate a = do
  in_range ← in_unit a.confidence
  late ← is_negative a.deadline_ms
  named ← (if is_call_tool a.intent then contains_text a.params (codes "tool_name") else ok true)
  ok (
      report (not in_range) confidence_out_of_range
      ++ (report late negative_deadline
          ++ (report (needs_target a.intent && not (truthy a.target)) requires_target
              ++ report (not named) requires_tool_name)))

abbrev pub is_nil : List ActionError → Bool
is_nil [] = true
is_nil (e ∷ es) = false

unfoldable pub is_valid : ModelAction → Result Bool
unfolding validate
is_valid a = map_ok is_nil (validate a)

abbrev pub action_statements : ModelAction → List (Bool × Str × Any)
action_statements a =
    (true, codes "intent", of_str (intent_value a.intent))
    ∷ (truthy a.target, codes "target", a.target)
    ∷ (truthy a.inputs, codes "inputs", a.inputs)
    ∷ (truthy a.params, codes "params", a.params)
    ∷ (truthy a.result, codes "result", a.result)
    ∷ (not_one a.confidence, codes "confidence", a.confidence)
    ∷ (truthy a.stream, codes "stream", of_bool true)
    ∷ (truthy a.cancel, codes "cancel", of_bool true)
    ∷ (truthy a.correlation_id, codes "correlation_id", a.correlation_id)
    ∷ (truthy a.deadline_ms, codes "deadline_ms", a.deadline_ms)
    ∷ (truthy a.metadata, codes "metadata", a.metadata)
    ∷ []

unfoldable pub action_to_dict : ModelAction → Dict
action_to_dict a = build_dict (action_statements a)

-- The arguments of the constructor, from a lookup.
abbrev pub action_of : (Str → Option Any) → ModelIntent → ModelAction
action_of get intent = record {
  intent = intent;
  target = get_or (get (codes "target")) (of_str []);
  inputs = get_or (get (codes "inputs")) (of_dict no_keys);
  params = get_or (get (codes "params")) (of_dict no_keys);
  result = get_or (get (codes "result")) (of_dict no_keys);
  confidence = get_or (get (codes "confidence")) (of_float one_bits);
  stream = get_or (get (codes "stream")) (of_bool false);
  cancel = get_or (get (codes "cancel")) (of_bool false);
  correlation_id = get_or (get (codes "correlation_id")) (of_str []);
  deadline_ms = get_or (get (codes "deadline_ms")) (of_int (pos 0));
  metadata = get_or (get (codes "metadata")) (of_dict no_keys);
}

abbrev pub read_action : (Str → Option Any) → Option ModelIntent → Result ModelAction
read_action get none = err semantic_error
read_action get (some intent) = ok (action_of get intent)

unfoldable pub action_from_dict : Dict → Result ModelAction
action_from_dict d =
    read_action (dict_get d) (intent_of (get_or (dict_get d (codes "intent")) (of_str [])))
