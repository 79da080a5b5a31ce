-- ===== src/Semantic/Messages.antt =====
-- aicl/semantic/types.py: the classes ModelObservation, ModelRequest and ModelResult.
pub mod RoundTrip
use aicl.Common.{Bool, List, Option, [], false, none, not, pos, some, true, ℕ, ◌==◌, ◌∷◌}
use aicl.Py.Any.{
  Any, Dict, build_dict, codes, dict_get, get_or, no_items, no_keys, of_bool, of_dict, of_float,
  of_int, of_list, of_none, of_str, truthy,
}
use aicl.Py.Float.{one_bits}
use aicl.Py.Utf8.{Str}
use aicl.Semantic.Action.{not_one}
use aicl.Semantic.Intents.{ModelIntent, intent_of, intent_value, return_result}

pub record ModelObservation : Type 0 where
  pub task : Any
  pub context : Any
  pub inputs : Any
  pub params : Any
  pub schema_id : Any
  pub trace_id : Any
  pub origin : Any
  pub confidence : Any
  pub deadline_ms : Any
  pub metadata : Any

abbrev pub observation_statements : ModelObservation → List (Bool × Str × Any)
observation_statements o =
    (true, codes "task", o.task)
    ∷ (truthy o.context, codes "context", o.context)
    ∷ (truthy o.inputs, codes "inputs", o.inputs)
    ∷ (truthy o.params, codes "params", o.params)
    ∷ (truthy o.schema_id, codes "schema_id", o.schema_id)
    ∷ (truthy o.trace_id, codes "trace_id", o.trace_id)
    ∷ (truthy o.origin, codes "origin", o.origin)
    ∷ (not_one o.confidence, codes "confidence", o.confidence)
    ∷ (truthy o.deadline_ms, codes "deadline_ms", o.deadline_ms)
    ∷ (truthy o.metadata, codes "metadata", o.metadata)
    ∷ []

unfoldable pub observation_to_dict : ModelObservation → Dict
observation_to_dict o = build_dict (observation_statements o)

abbrev pub observation_of : (Str → Option Any) → ModelObservation
observation_of get = record {
  task = get_or (get (codes "task")) (of_str []);
  context = get_or (get (codes "context")) (of_dict no_keys);
  inputs = get_or (get (codes "inputs")) (of_dict no_keys);
  params = get_or (get (codes "params")) (of_dict no_keys);
  schema_id = get_or (get (codes "schema_id")) (of_str []);
  trace_id = get_or (get (codes "trace_id")) (of_str []);
  origin = get_or (get (codes "origin")) (of_str []);
  confidence = get_or (get (codes "confidence")) (of_float one_bits);
  deadline_ms = get_or (get (codes "deadline_ms")) (of_int (pos 0));
  metadata = get_or (get (codes "metadata")) (of_dict no_keys);
}

unfoldable pub observation_from_dict : Dict → ModelObservation
observation_from_dict d = observation_of (dict_get d)

-- `v != 512` and `v != 0.7`
abbrev pub not_512 : Any → Bool
not_512 (of_int (pos n)) = not (n == 512)
not_512 (of_float d) = not (d == 0x4080_0000_0000_0000)
not_512 _ = true

abbrev pub seven_tenths : ℕ
seven_tenths = 0x3FE6_6666_6666_6666

abbrev pub not_seven_tenths : Any → Bool
not_seven_tenths (of_float d) = not (d == seven_tenths)
not_seven_tenths _ = true

pub record ModelRequest : Type 0 where
  pub target_model : Any
  pub task : Any
  pub prompt : Any
  pub inputs : Any
  pub params : Any
  pub max_tokens : Any
  pub temperature : Any
  pub stop : Any
  pub stream : Any
  pub grammar : Any
  pub correlation_id : Any
  pub deadline_ms : Any
  pub metadata : Any

abbrev pub request_statements : ModelRequest → List (Bool × Str × Any)
request_statements r =
    (true, codes "target_model", r.target_model)
    ∷ (true, codes "task", r.task)
    ∷ (truthy r.prompt, codes "prompt", r.prompt)
    ∷ (truthy r.inputs, codes "inputs", r.inputs)
    ∷ (truthy r.params, codes "params", r.params)
    ∷ (not_512 r.max_tokens, codes "max_tokens", r.max_tokens)
    ∷ (not_seven_tenths r.temperature, codes "temperature", r.temperature)
    ∷ (truthy r.stop, codes "stop", r.stop)
    ∷ (truthy r.stream, codes "stream", of_bool true)
    ∷ (truthy r.grammar, codes "grammar", r.grammar)
    ∷ (truthy r.correlation_id, codes "correlation_id", r.correlation_id)
    ∷ (truthy r.deadline_ms, codes "deadline_ms", r.deadline_ms)
    ∷ (truthy r.metadata, codes "metadata", r.metadata)
    ∷ []

unfoldable pub request_to_dict : ModelRequest → Dict
request_to_dict r = build_dict (request_statements r)

abbrev pub request_of : (Str → Option Any) → ModelRequest
request_of get = record {
  target_model = get_or (get (codes "target_model")) (of_str []);
  task = get_or (get (codes "task")) (of_str []);
  prompt = get_or (get (codes "prompt")) (of_str []);
  inputs = get_or (get (codes "inputs")) (of_dict no_keys);
  params = get_or (get (codes "params")) (of_dict no_keys);
  max_tokens = get_or (get (codes "max_tokens")) (of_int (pos 512));
  temperature = get_or (get (codes "temperature")) (of_float seven_tenths);
  stop = get_or (get (codes "stop")) (of_list no_items);
  stream = get_or (get (codes "stream")) (of_bool false);
  grammar = get_or (get (codes "grammar")) of_none;
  correlation_id = get_or (get (codes "correlation_id")) (of_str []);
  deadline_ms = get_or (get (codes "deadline_ms")) (of_int (pos 0));
  metadata = get_or (get (codes "metadata")) (of_dict no_keys);
}

unfoldable pub request_from_dict : Dict → ModelRequest
request_from_dict d = request_of (dict_get d)

pub record ModelResult : Type 0 where
  pub intent : ModelIntent
  pub output : Any
  pub confidence : Any
  pub tokens_used : Any
  pub latency_ms : Any
  pub error : Any
  pub done : Any
  pub metadata : Any

-- `v is not None`
abbrev pub is_not_none : Any → Bool
is_not_none of_none = false
is_not_none _ = true

abbrev pub is_error : ModelResult → Bool
is_error r = is_not_none r.error

abbrev pub result_statements : ModelResult → List (Bool × Str × Any)
result_statements r =
    (true, codes "intent", of_str (intent_value r.intent))
    ∷ (true, codes "confidence", r.confidence)
    ∷ (true, codes "done", r.done)
    ∷ (is_not_none r.output, codes "output", r.output)
    ∷ (truthy r.tokens_used, codes "tokens_used", r.tokens_used)
    ∷ (truthy r.latency_ms, codes "latency_ms", r.latency_ms)
    ∷ (truthy r.error, codes "error", r.error)
    ∷ (truthy r.metadata, codes "metadata", r.metadata)
    ∷ []

unfoldable pub result_to_dict : ModelResult → Dict
result_to_dict r = build_dict (result_statements r)

-- An unknown intent is read as RETURN_RESULT.
abbrev pub or_return_result : Option ModelIntent → ModelIntent
or_return_result none = return_result
or_return_result (some i) = i

abbrev pub result_of : (Str → Option Any) → ModelResult
result_of get = record {
  intent = or_return_result (intent_of (get_or (get (codes "intent")) (of_str [])));
  output = get_or (get (codes "output")) of_none;
  confidence = get_or (get (codes "confidence")) (of_float one_bits);
  tokens_used = get_or (get (codes "tokens_used")) (of_int (pos 0));
  latency_ms = get_or (get (codes "latency_ms")) (of_float 0);
  error = get_or (get (codes "error")) of_none;
  done = get_or (get (codes "done")) (of_bool true);
  metadata = get_or (get (codes "metadata")) (of_dict no_keys);
}

unfoldable pub result_from_dict : Dict → ModelResult
result_from_dict d = result_of (dict_get d)
