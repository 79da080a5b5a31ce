-- ===== src/Semantic/Messages/RoundTrip.antt =====
-- aicl/semantic/types.py: observations, requests and results behind `to_dict` and `from_dict`.
use aicl.Common.{
  Bool, Option, ap, arith, if◌then◌else◌, negsuc, none, pos, refl, some, ℕ, ℤ, ◌<◌, ◌^◌, ◌∙◌, ◌∷◌,
  ◌≡◌, ◌≢◌,
}
use aicl.Py.Any.{
  Any, Anys, Dict, get_or, item, no_items, of_bool, of_dict, of_float, of_int, of_list, of_none,
  of_str, truthy,
}
use aicl.Py.Any.Dicts.{dict_get-build_dict}
use aicl.Py.Utf8.{Str}
use aicl.Semantic.Action.RoundTrip.{bool_back, dict_back, int_back, one_back, str_back}
use aicl.Semantic.Intents.{ModelIntent}
use aicl.Semantic.Intents.Codes.{intent_of-intent_value}
use aicl.Semantic.Messages.{
  ModelObservation, ModelRequest, ModelResult, is_not_none, not_512, not_seven_tenths,
  observation_from_dict, observation_of, observation_statements, observation_to_dict,
  or_return_result, request_from_dict, request_of, request_statements, request_to_dict,
  result_from_dict, result_of, result_statements, result_to_dict, seven_tenths,
}
use mathlib.Core.Path.{fun_ext}

-- The fields have the types that the classes declare, where an optional text is not empty and a
-- latency is not -0.0.
pub data IsTypedObservation : ModelObservation → Type 0 where
  observed :
      (task : Str) (context inputs params : Dict) (schema_id trace_id origin : Str) (confidence : ℕ)
      (deadline_ms : ℤ) (metadata : Dict)
      → IsTypedObservation (record {
        task = of_str task;
        context = of_dict context;
        inputs = of_dict inputs;
        params = of_dict params;
        schema_id = of_str schema_id;
        trace_id = of_str trace_id;
        origin = of_str origin;
        confidence = of_float confidence;
        deadline_ms = of_int deadline_ms;
        metadata = of_dict metadata;
      })

abbrev pub optional_text : Option (ℕ × Str) → Any
optional_text none = of_none
optional_text (some (c, s)) = of_str (c ∷ s)

pub data IsTypedRequest : ModelRequest → Type 0 where
  requested :
      (target_model task prompt : Str) (inputs params : Dict) (max_tokens : ℤ) (temperature : ℕ)
      (stop : Anys) (stream : Bool) (grammar : Option (ℕ × Str)) (correlation_id : Str)
      (deadline_ms : ℤ) (metadata : Dict)
      → IsTypedRequest (record {
        target_model = of_str target_model;
        task = of_str task;
        prompt = of_str prompt;
        inputs = of_dict inputs;
        params = of_dict params;
        max_tokens = of_int max_tokens;
        temperature = of_float temperature;
        stop = of_list stop;
        stream = of_bool stream;
        grammar = optional_text grammar;
        correlation_id = of_str correlation_id;
        deadline_ms = of_int deadline_ms;
        metadata = of_dict metadata;
      })

pub data IsTypedResult : ModelResult → Type 0 where
  returned :
      (intent : ModelIntent) (output : Any) (confidence : ℕ) (tokens_used : ℤ) (latency_ms : ℕ)
      (error : Option (ℕ × Str)) (done : Bool) (metadata : Dict)
      → latency_ms ≢ 2 ^ 63
      → latency_ms < 2 ^ 64
      → IsTypedResult (record {
        intent = intent;
        output = output;
        confidence = of_float confidence;
        tokens_used = of_int tokens_used;
        latency_ms = of_float latency_ms;
        error = optional_text error;
        done = of_bool done;
        metadata = of_dict metadata;
      })

pub observation_from_dict-observation_to_dict :
    (o : ModelObservation)
    → IsTypedObservation o
    → observation_from_dict (observation_to_dict o) ≡ o
unfolding observation_from_dict observation_to_dict
observation_from_dict-observation_to_dict o (observed t con inp par sch tr ori c dl me) =
    ap observation_of (fun_ext (dict_get-build_dict (observation_statements o))) ∙ (λ j. record {
      task = of_str t;
      context = dict_back con j;
      inputs = dict_back inp j;
      params = dict_back par j;
      schema_id = str_back sch j;
      trace_id = str_back tr j;
      origin = str_back ori j;
      confidence = one_back c j;
      deadline_ms = int_back dl j;
      metadata = dict_back me j;
    })

tokens_back :
    (z : ℤ)
    → get_or (if not_512 (of_int z) then some (of_int z) else none) (of_int (pos 512)) ≡ of_int z
tokens_back (pos n) = ground arith
tokens_back (negsuc n) = refl

temperature_back :
    (d : ℕ)
    → get_or
        (if not_seven_tenths (of_float d) then some (of_float d) else none)
        (of_float seven_tenths)
      ≡ of_float d
temperature_back d = ground arith

list_back :
    (vs : Anys)
    → get_or (if truthy (of_list vs) then some (of_list vs) else none) (of_list no_items)
      ≡ of_list vs
list_back no_items = refl
list_back (item v vs) = refl

optional_back :
    (o : Option (ℕ × Str))
    → get_or (if truthy (optional_text o) then some (optional_text o) else none) of_none
      ≡ optional_text o
optional_back none = refl
optional_back (some (c, s)) = refl

output_back : (v : Any) → get_or (if is_not_none v then some v else none) of_none ≡ v
output_back of_none = refl
output_back (of_bool b) = refl
output_back (of_int z) = refl
output_back (of_float d) = refl
output_back (of_str s) = refl
output_back (of_list vs) = refl
output_back (of_dict d) = refl

latency_back :
    (d : ℕ)
    → d ≢ 2 ^ 63
    → d < 2 ^ 64
    → get_or (if truthy (of_float d) then some (of_float d) else none) (of_float 0) ≡ of_float d
latency_back d h k = ground arith

pub request_from_dict-request_to_dict :
    (r : ModelRequest) → IsTypedRequest r → request_from_dict (request_to_dict r) ≡ r
unfolding request_from_dict request_to_dict
request_from_dict-request_to_dict r (requested tm t p inp par mt te so st g co dl me) =
    ap request_of (fun_ext (dict_get-build_dict (request_statements r))) ∙ (λ j. record {
      target_model = of_str tm;
      task = of_str t;
      prompt = str_back p j;
      inputs = dict_back inp j;
      params = dict_back par j;
      max_tokens = tokens_back mt j;
      temperature = temperature_back te j;
      stop = list_back so j;
      stream = bool_back st j;
      grammar = optional_back g j;
      correlation_id = str_back co j;
      deadline_ms = int_back dl j;
      metadata = dict_back me j;
    })

pub result_from_dict-result_to_dict :
    (r : ModelResult) → IsTypedResult r → result_from_dict (result_to_dict r) ≡ r
unfolding result_from_dict result_to_dict
result_from_dict-result_to_dict r (returned i out c tu la er do_ me h k) =
    ap result_of (fun_ext (dict_get-build_dict (result_statements r))) ∙ (λ j. record {
      intent = or_return_result (intent_of-intent_value i j);
      output = output_back out j;
      confidence = of_float c;
      tokens_used = int_back tu j;
      latency_ms = latency_back la h k j;
      error = optional_back er j;
      done = of_bool do_;
      metadata = dict_back me j;
    })

-- An observation, a request and a result with fields of the declared types come back from their
-- dicts, where an optional text is not empty and a latency is not -0.0.
pub from_dict-to_dict :
    (o : ModelObservation) (r : ModelRequest) (s : ModelResult)
    → IsTypedObservation o
    → IsTypedRequest r
    → IsTypedResult s
    → (observation_from_dict (observation_to_dict o) ≡ o)
      × (request_from_dict (request_to_dict r) ≡ r)
      × (result_from_dict (result_to_dict s) ≡ s)
from_dict-to_dict o r s h k l = (
  observation_from_dict-observation_to_dict o h,
  request_from_dict-request_to_dict r k,
  result_from_dict-result_to_dict s l,
)
