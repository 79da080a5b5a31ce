-- ===== src/Semantic/Adapter/Inbound.antt =====
-- aicl/semantic/adapter.py: from bytes to an observation, and from an observation to a request.
-- `upper` is Python's `str.upper`.
use aicl.Common.{List, Option, [], false, if◌then◌else◌, none, pos, some, ℕ, ◌++◌, ◌∷◌}
use aicl.Bin.Access.{view_confidence, view_origin, view_text}
use aicl.Bin.Access.Infos.{view_metadata}
use aicl.Bin.Codec.{decode}
use aicl.Bin.Types.{Identity}
use aicl.Bin.View.{PacketView, ext_one}
use aicl.Py.Any.{
  Any, Dict, codes, dict_get, get_or, key, no_items, no_keys, of_bool, of_dict, of_float, of_int,
  of_list, of_none, of_str, truthy,
}
use aicl.Py.Json.Dump.{dumps}
use aicl.Py.Result.{
  Result, attribute_error, err, guard, map_ok, ok, semantic_error, type_error, ◌>>=◌, ◌>>◌,
}
use aicl.Py.Struct.{Bytes}
use aicl.Py.Utf8.{Str}
use aicl.Py.Uuid.{hex}
use aicl.Semantic.Adapter.{SemanticAdapter, as_text, spaced}
use aicl.Semantic.Messages.{ModelObservation, ModelRequest, seven_tenths}

abbrev pub texts_dict : List (Str × Str) → Dict
texts_dict [] = no_keys
texts_dict ((k, v) ∷ d) = key k (of_str v) (texts_dict d)

-- `pv.session_id.hex() if pv.session_id else ""`
abbrev pub trace_of : Option Bytes → Str
trace_of none = []
trace_of (some b) = hex b

abbrev pub name_of : Option Identity → Str
name_of none = []
name_of (some i) = i.name

-- `_packet_view_to_observation`. The loop over the operands takes those that are tuples, which no
-- Symbol is, so that inputs and parameters stay empty; the intent that is looked up is not used.
unfoldable pub observe : PacketView → Result ModelObservation
observe view = do
  task ← view_text 0x83 view.extensions
  metadata ← view_metadata view.extensions
  schema_id ← view_text 0x91 view.extensions
  origin ← view_origin view.extensions
  confidence ← view_confidence view.extensions
  ok (record {
    task = of_str task;
    context = of_dict (key (codes "intent") (of_str task) no_keys);
    inputs = of_dict no_keys;
    params = of_dict no_keys;
    schema_id = of_str schema_id;
    trace_id = of_str (trace_of (ext_one 0x80 view.extensions));
    origin = of_str (name_of origin);
    confidence = of_float confidence;
    deadline_ms = of_int (pos view.header.deadline_ms);
    metadata = of_dict (texts_dict metadata);
  })

-- `packet_view_to_observation`
unfoldable pub view_to_observation : SemanticAdapter → PacketView → Result ModelObservation
unfolding observe
view_to_observation adapter view = do
  guard (adapter.gate.check_inbound view).allowed semantic_error
  observe view

unfoldable pub bytes_to_observation : SemanticAdapter → Bytes → Result ModelObservation
unfolding view_to_observation
bytes_to_observation adapter data_bytes = decode data_bytes >>= view_to_observation adapter

-- `v.get` wants a dict, `v.upper` a text.
abbrev pub as_dict : Any → Result Dict
as_dict (of_dict d) = ok d
as_dict _ = err attribute_error

abbrev pub upper_task : (Str → Str) → Any → Result Str
upper_task upper v = if truthy v then map_ok upper (as_text v) else ok (codes "GENERATE")

-- `"\n".join` of one value.
abbrev pub joined_alone : Any → Result Str
joined_alone (of_str s) = ok s
joined_alone _ = err type_error

module _ (float_repr : ℕ → Str) where
  abbrev pub input_text : Any → Str
  input_text (of_str s) = s
  input_text v = dumps float_repr spaced v

  -- The lines `k: v`, joined by line feeds.
  unfoldable pub input_lines : Dict → Str
  input_lines no_keys = []
  input_lines (key k v no_keys) = k ++ (codes ": " ++ input_text v)
  input_lines (key k v (key j w d)) =
      let rest = input_lines (key j w d) in k ++ (codes ": " ++ (input_text v ++ (0x0A ∷ rest)))

  unfoldable pub prompt_of : Dict → Result Str
  unfolding input_lines
  prompt_of inputs =
      let text = get_or (dict_get inputs (codes "text")) of_none in
      if truthy text then joined_alone text else ok (input_lines inputs)

  abbrev pub target_or : Str → Any → Result Any
  target_or [] context =
      map_ok (λ d. get_or (dict_get d (codes "model")) (of_str [])) (as_dict context)
  target_or (c ∷ name) context = ok (of_str (c ∷ name))

  -- `observation_to_request`, with the grammar's `bnf` or None.
  unfoldable pub observation_to_request :
      (Str → Str) → ModelObservation → Str → Any → Result ModelRequest
  unfolding prompt_of
  observation_to_request upper obs model_name grammar = do
    task ← upper_task upper obs.task
    inputs ← as_dict obs.inputs
    prompt ← prompt_of inputs
    target ← target_or model_name obs.context
    ok (record {
      target_model = target;
      task = of_str task;
      prompt = of_str prompt;
      inputs = obs.inputs;
      params = obs.params;
      max_tokens = of_int (pos 512);
      temperature = of_float seven_tenths;
      stop = of_list no_items;
      stream = of_bool false;
      grammar = grammar;
      correlation_id = obs.trace_id;
      deadline_ms = obs.deadline_ms;
      metadata = obs.metadata;
    })
