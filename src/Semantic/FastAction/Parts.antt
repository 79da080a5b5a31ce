-- ===== src/Semantic/FastAction/Parts.antt =====
-- aicl/semantic/fast_action_codec.py: the codes, the flags, the numbers and the ids, read back.
use aicl.Common.{
  Bool, ap, arith, drop, length, length-append, le→ltb, lt→ltb, min, negsuc, pos, refl, replicate,
  some, suc, take, ℕ, ℤ, ◌++◌, ◌<◌, ◌^◌, ◌∙◌, ◌≡◌,
}
use aicl.Py.Any.{Any, of_bool, of_float, of_int, of_str}
use aicl.Py.Float.{of_thousandths}
use aicl.Py.Result.{>>=-eq-ok, map_ok, ok}
use aicl.Py.Struct.{Bytes}
use aicl.Py.Utf8.{Str}
use aicl.Semantic.FastAction.{
  decode_hex_id, fast_body, fast_cancel, fast_flags, fast_has_metadata, fast_has_params,
  fast_has_result, fast_stream, isa_byte, isa_intent, make_message_id,
}
use aicl.Semantic.FastCodec.Parts.{length-replicate}
use aicl.Semantic.Intents.{
  ModelIntent, call_model, call_tool, cancel_intent, classify, delete_memory, embed, evaluate,
  extract, filter_intent, generate, index_query, index_upsert, last_with, plan, rank, read_memory,
  reason, return_result, route, stream_result, summarize, synthesize, transform, verify,
  write_memory,
}
use aicl.Semantic.Wire.{
  at_most, decode_if, decode_json_small, decode_str16, encode_confidence_le, has_flag, le, pack_le,
  read_le, thousandths,
}
use aicl.Semantic.Wire.Fields.{length-le}
use native.Mathlib.Decide.{dec_lt}

-- The compact code of an intent is read as that intent.
pub isa_intent-isa_byte : (i : ModelIntent) → isa_intent (isa_byte i) ≡ some i
unfolding isa_intent last_with
isa_intent-isa_byte classify = refl
isa_intent-isa_byte generate = refl
isa_intent-isa_byte reason = refl
isa_intent-isa_byte embed = refl
isa_intent-isa_byte rank = refl
isa_intent-isa_byte summarize = refl
isa_intent-isa_byte synthesize = refl
isa_intent-isa_byte verify = refl
isa_intent-isa_byte extract = refl
isa_intent-isa_byte transform = refl
isa_intent-isa_byte plan = refl
isa_intent-isa_byte evaluate = refl
isa_intent-isa_byte call_model = refl
isa_intent-isa_byte call_tool = refl
isa_intent-isa_byte read_memory = refl
isa_intent-isa_byte write_memory = refl
isa_intent-isa_byte delete_memory = refl
isa_intent-isa_byte index_query = refl
isa_intent-isa_byte index_upsert = refl
isa_intent-isa_byte route = refl
isa_intent-isa_byte filter_intent = refl
isa_intent-isa_byte return_result = refl
isa_intent-isa_byte stream_result = refl
isa_intent-isa_byte cancel_intent = refl

-- Each flag is that of its own test, and all fit in four bytes.
pub fast_flags_back :
    (s c p r m : Bool)
    → (has_flag (fast_flags s c p r m) fast_stream ≡ s)
      × (has_flag (fast_flags s c p r m) fast_cancel ≡ c)
      × (has_flag (fast_flags s c p r m) fast_has_params ≡ p)
      × (has_flag (fast_flags s c p r m) fast_has_result ≡ r)
      × (has_flag (fast_flags s c p r m) fast_has_metadata ≡ m)
      × (fast_flags s c p r m < 256 ^ 4)
unfolding fast_flags
fast_flags_back s c p r m = ground arith

pack_le-eq-ok :
    (z : ℤ) {out : Bytes}
    → pack_le 2 (at_most z) ≡ ok out
    → (n : ℕ) × (at_most z ≡ pos n) × (n < 65536) × (out ≡ le 2 n)
unfolding pack_le
pack_le-eq-ok (pos m) h = (min m 65535, refl, omega arith, ground (arith, h))
pack_le-eq-ok (negsuc m) h = cc

pub encode_confidence_le-eq-ok :
    (v : Any) {out : Bytes}
    → encode_confidence_le v ≡ ok out
    → (n : ℕ) × (map_ok at_most (thousandths v) ≡ ok (pos n)) × (n < 65536) × (out ≡ le 2 n)
unfolding encode_confidence_le
encode_confidence_le-eq-ok v h =
    let (z, e, k) = >>=-eq-ok (thousandths v) _ h in
    let (n, is, small, out_is) = pack_le-eq-ok z k in
    (n, ap (map_ok at_most) e ∙ ap ok is, small, out_is)

-- A message id is made up to 2 ^ 64 - 1, and has sixteen bytes.
pub make_message_id-eq-ok :
    (counter : ℕ) {id : Bytes}
    → (make_message_id counter).0 ≡ ok id
    → (suc counter < 256 ^ 8) × (id ≡ replicate 8 0 ++ le 8 (suc counter)) × (length id ≡ 16)
unfolding make_message_id
make_message_id-eq-ok counter {id} h = elim (dec_lt (suc counter) (256 ^ 8)) [
  | yes lt ↦
      let is : id ≡ replicate 8 0 ++ le 8 (suc counter) =
        ground (arith, h, lt→ltb (suc counter) (256 ^ 8) lt) in
      (
        lt,
        is,
        ap length is
            ∙ length-append (replicate 8 0) (le 8 (suc counter))
            ∙ omega (arith, length-replicate 8 0, length-le 8 (suc counter)),
      )
  | no ge ↦ absurd (grind (arith, h, le→ltb (suc counter) (256 ^ 8) (omega arith)))
]

module _ (float_repr : ℕ → Str) (float_of : Str → ℕ) where
  pub fast_body_parts :
      (intent : ModelIntent) (flags : ℕ) (src : Bytes) {target : Str} {r1 : Bytes} {inputs : Any}
      {r2 : Bytes} {params : Any} {r3 : Bytes} {result : Any} {r4 : Bytes} {correlation : Bytes}
      {deadline : ℕ} {r5 : Bytes} {confidence : ℕ} {r6 : Bytes} {metadata : Any} {r7 : Bytes}
      → take 16 src ≡ correlation
      → decode_str16 (drop 16 src) ≡ ok (target, r1)
      → decode_json_small float_repr float_of r1 ≡ ok (inputs, r2)
      → decode_if float_repr float_of (has_flag flags fast_has_params) r2 ≡ ok (params, r3)
      → decode_if float_repr float_of (has_flag flags fast_has_result) r3 ≡ ok (result, r4)
      → read_le 4 r4 ≡ ok (deadline, r5)
      → read_le 2 r5 ≡ ok (confidence, r6)
      → decode_if float_repr float_of (has_flag flags fast_has_metadata) r6 ≡ ok (metadata, r7)
      → fast_body float_repr float_of intent flags src
        ≡ ok (record {
          intent = intent;
          target = of_str target;
          inputs = inputs;
          params = params;
          result = result;
          confidence = of_float (of_thousandths confidence);
          stream = of_bool (has_flag flags fast_stream);
          cancel = of_bool (has_flag flags fast_cancel);
          correlation_id = of_str (decode_hex_id correlation);
          deadline_ms = of_int (pos deadline);
          metadata = metadata;
        })
  unfolding fast_body
  fast_body_parts intent flags src h1 h2 h3 h4 h5 h6 h7 h8 = rw (h1, h2, h3, h4, h5, h6, h7, h8)
