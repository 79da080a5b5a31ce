-- ===== src/Semantic/FastCodec.antt =====
-- aicl/semantic/fast_codec.py: actions in bytes. The sixteen bytes of `uuid4` are an argument.
pub mod Parts
pub mod RoundTrip
pub mod Exact
use aicl.Common.{
  Bool, Option, [], drop, if◌then◌else◌, length, none, pos, replicate, same_list, some, take, ℕ,
  ◌++◌, ◌==◌, ◌∷◌,
}
use aicl.Py.Any.{Any, of_bool, of_float, of_int, of_str, truthy}
use aicl.Py.Float.{of_thousandths}
use aicl.Py.Result.{
  Result, attribute_error, err, map_ok, ok, semantic_error, struct_error, ◌>>=◌, ◌>>◌,
}
use aicl.Py.Struct.{Bytes, be}
use aicl.Py.Utf8.{Str}
use aicl.Py.Uuid.{uuid_bytes, uuid_text}
use aicl.Semantic.Action.{ModelAction}
use aicl.Semantic.Intents.{ModelIntent, byte_to_intent, intent_byte}
use aicl.Semantic.Wire.{
  decode_if, decode_json_small, decode_str16, encode_confidence, encode_if, encode_json_small,
  encode_str16, has_flag, low_32, read_be, set_flag,
}

abbrev pub flag_stream : ℕ
flag_stream = 0x01

abbrev pub flag_cancel : ℕ
flag_cancel = 0x02

abbrev pub flag_has_params : ℕ
flag_has_params = 0x04

abbrev pub flag_has_result : ℕ
flag_has_result = 0x08

abbrev pub flag_has_metadata : ℕ
flag_has_metadata = 0x10

unfoldable pub action_flags : Bool → Bool → Bool → Bool → Bool → ℕ
action_flags stream cancel params result metadata = set_flag metadata flag_has_metadata (
    set_flag result flag_has_result (
      set_flag params flag_has_params
        (set_flag cancel flag_cancel (set_flag stream flag_stream 0))))

unfoldable pub flags_of : ModelAction → ℕ
flags_of a =
    action_flags (truthy a.stream) (truthy a.cancel) (truthy a.params) (truthy a.result)
      (truthy a.metadata)

abbrev pub text_uuid : Any → Result Bytes
text_uuid (of_str s) = uuid_bytes s
text_uuid _ = err attribute_error

unfoldable pub encode_correlation : Any → Result Bytes
encode_correlation v = if truthy v then text_uuid v else ok (replicate 16 0)

unfoldable pub decode_correlation : Bytes → Result Str
decode_correlation b = if same_list b (replicate 16 0) then ok [] else uuid_text b

module _ (float_repr : ℕ → Str) (float_of : Str → ℕ) where
  unfoldable pub encode_action : Bytes → ModelAction → Result Bytes
  encode_action session a = do
    target ← encode_str16 a.target
    inputs ← encode_json_small float_repr float_of a.inputs
    params ← encode_if float_repr float_of a.params
    result ← encode_if float_repr float_of a.result
    correlation ← encode_correlation a.correlation_id
    deadline ← low_32 a.deadline_ms
    confidence ← encode_confidence a.confidence
    metadata ← encode_if float_repr float_of a.metadata
    ok (
        0x01
        ∷ intent_byte a.intent
        ∷ flags_of a
        ∷ (session
            ++ (target
                ++ (inputs
                    ++ (params
                        ++ (result
                            ++ (correlation ++ (be 4 deadline ++ (confidence ++ metadata)))))))))

  -- `decode_action` behind the header and the session id.
  unfoldable pub decode_body : ModelIntent → ℕ → Bytes → Result ModelAction
  decode_body intent flags src = do
    (target, r1) ← decode_str16 src
    (inputs, r2) ← decode_json_small float_repr float_of r1
    (params, r3) ← decode_if float_repr float_of (has_flag flags flag_has_params) r2
    (result, r4) ← decode_if float_repr float_of (has_flag flags flag_has_result) r3
    correlation_id ← decode_correlation (take 16 r4)
    (deadline_ms, r6) ← read_be 4 (drop 16 r4)
    (confidence, r7) ← read_be 2 r6
    (metadata, r8) ← decode_if float_repr float_of (has_flag flags flag_has_metadata) r7
    ok (record {
      intent = intent;
      target = of_str target;
      inputs = inputs;
      params = params;
      result = result;
      confidence = of_float (of_thousandths confidence);
      stream = of_bool (has_flag flags flag_stream);
      cancel = of_bool (has_flag flags flag_cancel);
      correlation_id = of_str correlation_id;
      deadline_ms = of_int (pos deadline_ms);
      metadata = metadata;
    })

  abbrev pub decode_known : Option ModelIntent → ℕ → Bytes → Result ModelAction
  decode_known none flags src = err semantic_error
  decode_known (some intent) flags src = decode_body intent flags src

  unfoldable pub decode_action : Bytes → Result ModelAction
  decode_action (version ∷ byte ∷ flags ∷ src) =
      if version == 0x01
      then decode_known (byte_to_intent byte) flags (drop 16 src)
      else err semantic_error
  decode_action _ = err struct_error

  unfoldable pub measure_bytes : Bytes → ModelAction → Result ℕ
  unfolding encode_action
  measure_bytes session a = map_ok length (encode_action session a)
