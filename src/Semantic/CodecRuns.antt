-- ===== src/Semantic/CodecRuns.antt =====
-- Concrete runs of the actions of aicl/semantic and of their codecs, and the theorems at concrete inputs.
use aicl.Common.{[], arith, false, none, pos, refl, replicate, true, ℕ, ◌++◌, ◌∷◌, ◌≡◌, ◌≤◌}
use aicl.Py.Any.{
  Dict, codes, dict_get, key, no_items, no_keys, of_bool, of_dict, of_float, of_int, of_list,
  of_none, of_str,
}
use aicl.Py.Float.{of_thousandths, one_bits, times_thousand}
use aicl.Py.Ints.{pack_int}
use aicl.Py.Json.Dump.{dumps, escape_char, escape_chars}
use aicl.Py.Json.Heads.{IsJson}
use aicl.Py.Result.{map_ok, ok}
use aicl.Py.Struct.{Bytes, be}
use aicl.Py.Utf8.{Str, utf8_encode}
use aicl.Semantic.Action.{ModelAction, action_from_dict, action_to_dict}
use aicl.Semantic.Action.RoundTrip.{IsTyped, action_from_dict-action_to_dict, typed}
use aicl.Semantic.FastAction.{
  FastActionEncoder, decode_hex_id, encode_hex_id, fast_decode, fast_encode, fast_encoder,
  fast_flags, fast_parts, make_message_id,
}
use aicl.Semantic.FastAction.MessageIds.{message_id_in, message_ids_differ}
use aicl.Semantic.FastAction.RoundTrip.{fast_decode-fast_encode}
use aicl.Semantic.FastCodec.{
  action_flags, decode_action, decode_correlation, encode_action, encode_correlation, flags_of,
}
use aicl.Semantic.FastCodec.Exact.{decode_action-encode_action_exact}
use aicl.Semantic.FastCodec.Parts.{received}
use aicl.Semantic.FastCodec.RoundTrip.{DictsJson, decode_action-encode_action}
use aicl.Semantic.Intents.{verify}
use aicl.Semantic.Messages.{
  ModelObservation, ModelRequest, ModelResult, observation_from_dict, observation_to_dict,
  request_from_dict, request_to_dict, result_from_dict, result_to_dict, seven_tenths,
}
use aicl.Semantic.Messages.RoundTrip.{from_dict-to_dict, observed, requested, returned}
use aicl.Semantic.Wire.{
  at_most, encode_confidence, encode_confidence_le, encode_json_small, encode_str16, le, low_32,
  pack_le, thousandths,
}

-- The runs have no floats in their dicts.
abbrev pub no_repr : ℕ → Str
no_repr d = []

abbrev pub no_float : Str → ℕ
no_float s = 0

abbrev pub sample_inputs : Dict
sample_inputs = key (codes "k") (of_str (codes "v")) no_keys

abbrev pub sample_result : Dict
sample_result = key (codes "ok") (of_bool true) no_keys

abbrev pub sample : ModelAction
sample = record {
  intent = verify;
  target = of_str (codes "t");
  inputs = of_dict sample_inputs;
  params = of_dict no_keys;
  result = of_dict sample_result;
  confidence = of_float one_bits;
  stream = of_bool true;
  cancel = of_bool false;
  correlation_id = of_str [];
  deadline_ms = of_int (pos 250);
  metadata = of_dict no_keys;
}

pub sample-IsTyped : IsTyped sample
sample-IsTyped =
    typed verify (codes "t") sample_inputs no_keys sample_result one_bits true false [] (pos 250)
      no_keys

sample-DictsJson : DictsJson no_repr no_float sample
unfolding IsJson dict_get
sample-DictsJson = (((refl, tt), (tt, tt)), (tt, tt), ((refl, tt), (tt, tt)), (tt, tt))

action_from_dict-action_to_dict_example : action_from_dict (action_to_dict sample) ≡ ok sample
action_from_dict-action_to_dict_example = action_from_dict-action_to_dict sample sample-IsTyped

abbrev session_7 : Bytes
session_7 = replicate 16 7

abbrev sample_dicts : Bytes
sample_dicts = 0 ∷ 9 ∷ codes "{\"k\":\"v\"}" ++ (0 ∷ 11 ∷ codes "{\"ok\":true}")

abbrev sample_wire : Bytes
sample_wire =
    0x01
    ∷ 0x08
    ∷ 0x09
    ∷ (session_7
        ++ (0
            ∷ 1
            ∷ 0x74
            ∷ (sample_dicts ++ (replicate 16 0 ++ (0 ∷ 0 ∷ 0 ∷ 250 ∷ 0x03 ∷ 0xE8 ∷ [])))))

sample_encoded : encode_action no_repr no_float session_7 sample ≡ ok sample_wire
unfolding encode_action flags_of action_flags encode_str16 encode_json_small dumps utf8_encode
    pack_int be encode_correlation encode_confidence times_thousand escape_chars escape_char
sample_encoded = refl

decode_action-encode_action_example :
    (n : ℕ) × (d : ℕ) × (b : Bytes) × (k : Str) × (map_ok at_most (thousandths (of_float one_bits))
      ≡ ok (pos n))
    × (low_32 (of_int (pos 250)) ≡ ok d)
    × (encode_correlation (of_str []) ≡ ok b)
    × (decode_correlation b ≡ ok k)
    × (decode_action no_repr no_float sample_wire ≡ ok (received sample n k d))
decode_action-encode_action_example =
    decode_action-encode_action no_repr no_float session_7 sample sample-IsTyped sample-DictsJson
      refl sample_encoded

whole : of_float one_bits ≡ of_float (of_thousandths 1000)
unfolding of_thousandths
whole = refl

decode_action-encode_action_exact_example : decode_action no_repr no_float sample_wire ≡ ok sample
decode_action-encode_action_exact_example =
    decode_action-encode_action_exact no_repr no_float session_7 sample 1000 250 sample-IsTyped
      sample-DictsJson refl (omega arith) whole (omega arith) refl refl sample_encoded

-- An encoder whose session id was given, and two of its encodings.
abbrev pub sample_encoder : FastActionEncoder
sample_encoder = fast_encoder (codes "a") (replicate 16 7)

abbrev fast_wire : ℕ → Bytes
fast_wire n =
    0x02
    ∷ 0x4A
    ∷ 0x05
    ∷ 0x02
    ∷ 0
    ∷ 0
    ∷ (session_7
        ++ (replicate 8 0
            ++ (n ∷ replicate 7 0
                ++ (replicate 16 0
                    ++ (0 ∷ 1 ∷ 0x74 ∷ (sample_dicts ++ (250 ∷ 0 ∷ 0 ∷ 0 ∷ 0xE8 ∷ 0x03 ∷ [])))))))

fast_encoded_at_0 : (fast_encode no_repr no_float sample_encoder sample 0).0 ≡ ok (fast_wire 1)
unfolding fast_encode fast_parts make_message_id fast_flags le encode_str16 encode_json_small dumps
    utf8_encode pack_int be encode_hex_id encode_confidence_le pack_le times_thousand escape_chars
    escape_char
fast_encoded_at_0 = refl

fast_encoded_at_6 : (fast_encode no_repr no_float sample_encoder sample 6).0 ≡ ok (fast_wire 7)
unfolding fast_encode fast_parts make_message_id fast_flags le encode_str16 encode_json_small dumps
    utf8_encode pack_int be encode_hex_id encode_confidence_le pack_le times_thousand escape_chars
    escape_char
fast_encoded_at_6 = refl

fast_decode-fast_encode_example :
    (n : ℕ) × (d : ℕ) × (map_ok at_most (thousandths (of_float one_bits)) ≡ ok (pos n))
    × (low_32 (of_int (pos 250)) ≡ ok d)
    × (fast_decode no_repr no_float (fast_wire 1)
        ≡ ok (received sample n (decode_hex_id (replicate 16 0)) d))
unfolding encode_hex_id
fast_decode-fast_encode_example =
    fast_decode-fast_encode no_repr no_float sample_encoder sample 0 sample-IsTyped sample-DictsJson
      refl refl refl fast_encoded_at_0

counter_after_0 : (fast_encode no_repr no_float sample_encoder sample 0).1 ≤ 6
unfolding fast_encode make_message_id
counter_after_0 = omega arith

message_ids_differ_example : ¬ (message_id_in (fast_wire 1) ≡ message_id_in (fast_wire 7))
message_ids_differ_example =
    message_ids_differ no_repr no_float sample_encoder sample_encoder sample sample 0 6 refl refl
      fast_encoded_at_0 counter_after_0 fast_encoded_at_6

abbrev pub sample_observation : ModelObservation
sample_observation = record {
  task = of_str (codes "RANK");
  context = of_dict no_keys;
  inputs = of_dict sample_inputs;
  params = of_dict no_keys;
  schema_id = of_str [];
  trace_id = of_str (codes "07");
  origin = of_str (codes "a");
  confidence = of_float one_bits;
  deadline_ms = of_int (pos 0);
  metadata = of_dict no_keys;
}

abbrev sample_request : ModelRequest
sample_request = record {
  target_model = of_str (codes "m");
  task = of_str (codes "RANK");
  prompt = of_str [];
  inputs = of_dict sample_inputs;
  params = of_dict no_keys;
  max_tokens = of_int (pos 64);
  temperature = of_float seven_tenths;
  stop = of_list no_items;
  stream = of_bool false;
  grammar = of_none;
  correlation_id = of_str [];
  deadline_ms = of_int (pos 0);
  metadata = of_dict no_keys;
}

abbrev sample_answer : ModelResult
sample_answer = record {
  intent = verify;
  output = of_bool true;
  confidence = of_float one_bits;
  tokens_used = of_int (pos 3);
  latency_ms = of_float 0;
  error = of_none;
  done = of_bool true;
  metadata = of_dict no_keys;
}

from_dict-to_dict_example :
    (observation_from_dict (observation_to_dict sample_observation) ≡ sample_observation)
    × (request_from_dict (request_to_dict sample_request) ≡ sample_request)
    × (result_from_dict (result_to_dict sample_answer) ≡ sample_answer)
from_dict-to_dict_example =
    from_dict-to_dict sample_observation sample_request sample_answer
      (observed (codes "RANK") no_keys sample_inputs no_keys [] (codes "07") (codes "a") one_bits
        (pos 0) no_keys)
      (requested (codes "m") (codes "RANK") [] sample_inputs no_keys (pos 64) seven_tenths no_items
        false none [] (pos 0) no_keys)
      (returned verify (of_bool true) one_bits (pos 3) 0 none true no_keys (omega arith)
        (omega arith))
