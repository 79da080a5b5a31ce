-- ===== src/Semantic/FastAction.antt =====
-- aicl/semantic/fast_action_codec.py: actions in bytes, with ids from a counter. The counter, which the
-- module keeps, is passed along; its lock makes each step of it one step here.
pub mod Parts
pub mod RoundTrip
pub mod MessageIds
use aicl.Common.{
  Bool, Option, [], drop, false, if◌then◌else◌, ltb, none, pos, replicate, same_list, some, suc,
  take, true, ℕ, ◌++◌, ◌==◌, ◌^◌, ◌∷◌,
}
use aicl.Py.Any.{Any, of_bool, of_float, of_int, of_str, truthy}
use aicl.Py.Float.{of_thousandths}
use aicl.Py.Result.{
  Result, attribute_error, err, map_ok, ok, overflow_error, semantic_error, struct_error, ◌>>=◌,
  ◌>>◌,
}
use aicl.Py.Struct.{Bytes}
use aicl.Py.Utf8.{Str}
use aicl.Py.Uuid.{from_hex, hex, remove_char}
use aicl.Semantic.Action.{ModelAction}
use aicl.Semantic.Intents.{
  ModelIntent, all_intents, call_model, call_tool, cancel_intent, classify, delete_memory, embed,
  evaluate, extract, filter_intent, generate, index_query, index_upsert, last_with, plan, rank,
  read_memory, reason, return_result, route, stream_result, summarize, synthesize, transform,
  verify, write_memory,
}
use aicl.Semantic.Wire.{
  decode_if, decode_json_small, decode_str16, encode_confidence_le, encode_if, encode_json_small,
  encode_str16, has_flag, le, low_32, read_le, set_flag,
}
use aicl.Transport.Ring.{Ring}

-- The compact code of an intent.
abbrev pub isa_byte : ModelIntent → ℕ
isa_byte classify = 0x43
isa_byte generate = 0x46
isa_byte reason = 0x44
isa_byte embed = 0x42
isa_byte rank = 0x47
isa_byte summarize = 0x48
isa_byte synthesize = 0x49
isa_byte verify = 0x4A
isa_byte extract = 0x4B
isa_byte transform = 0x4C
isa_byte plan = 0x4D
isa_byte evaluate = 0x4E
isa_byte call_model = 0x40
isa_byte call_tool = 0x41
isa_byte read_memory = 0x20
isa_byte write_memory = 0x21
isa_byte delete_memory = 0x22
isa_byte index_query = 0x23
isa_byte index_upsert = 0x24
isa_byte route = 0x03
isa_byte filter_intent = 0x04
isa_byte return_result = 0x11
isa_byte stream_result = 0x12
isa_byte cancel_intent = 0x09

unfoldable pub isa_intent : ℕ → Option ModelIntent
unfolding last_with
isa_intent byte = last_with isa_byte byte all_intents

abbrev pub fast_request : ℕ
fast_request = 0x0001

abbrev pub fast_stream : ℕ
fast_stream = 0x0004

abbrev pub fast_cancel : ℕ
fast_cancel = 0x0020

abbrev pub fast_has_params : ℕ
fast_has_params = 0x0100

abbrev pub fast_has_result : ℕ
fast_has_result = 0x0200

abbrev pub fast_has_metadata : ℕ
fast_has_metadata = 0x0400

unfoldable pub fast_flags : Bool → Bool → Bool → Bool → Bool → ℕ
fast_flags stream cancel params result metadata = set_flag metadata fast_has_metadata (
    set_flag result fast_has_result (
      set_flag params fast_has_params
        (set_flag cancel fast_cancel (set_flag stream fast_stream fast_request))))

-- The next value of a counter, which it keeps too.
abbrev pub next : ℕ → ℕ × ℕ
next counter = (suc counter, suc counter)

-- The counter is moved on before its value is written, so also if the value is too big.
unfoldable pub make_message_id : ℕ → Result Bytes × ℕ
make_message_id counter =
    let (n, after) = next counter in
    (if ltb n (256 ^ 8) then ok (replicate 8 0 ++ le 8 n) else err overflow_error, after)

pub record FastActionEncoder : Type 0 where
  origin : Str
  session_id : Bytes

abbrev pub is_empty : Bytes → Bool
is_empty [] = true
is_empty (b ∷ bs) = false

abbrev pub fast_encoder : Str → Bytes → FastActionEncoder
fast_encoder origin session = record { origin = origin; session_id = session }

-- `FastActionEncoder.__init__`: an id that is empty or not given is made from the counter.
unfoldable pub make_encoder : Str → Option Bytes → ℕ → Result FastActionEncoder × ℕ
make_encoder origin none counter =
    let made = make_message_id counter in (map_ok (fast_encoder origin) made.0, made.1)
make_encoder origin (some session) counter =
    let made = make_message_id counter in
    if is_empty session
    then (map_ok (fast_encoder origin) made.0, made.1)
    else (ok (fast_encoder origin session), counter)

abbrev pub text_hex : Any → Result Bytes
text_hex (of_str s) = from_hex (remove_char 0x2D s)
text_hex _ = err attribute_error

-- The correlation id, whose length is not looked at.
unfoldable pub encode_hex_id : Any → Result Bytes
encode_hex_id v = if truthy v then text_hex v else ok (replicate 16 0)

unfoldable pub decode_hex_id : Bytes → Str
decode_hex_id b = if same_list b (replicate 16 0) then [] else hex b

abbrev pub push_wire :
    {Ring : Type 0} → (Bytes → Ring → Result Bool × Ring) → Result Bytes → Ring → Result Bool × Ring
push_wire push (err e) ring = (err e, ring)
push_wire push (ok wire) ring = push wire ring

abbrev pub fast_flags_of : ModelAction → ℕ
fast_flags_of a =
    fast_flags (truthy a.stream) (truthy a.cancel) (truthy a.params) (truthy a.result)
      (truthy a.metadata)

abbrev pub fast_header : ModelAction → Bytes
fast_header a = 0x02 ∷ isa_byte a.intent ∷ le 4 (fast_flags_of a)

module _ (float_repr : ℕ → Str) (float_of : Str → ℕ) where
  -- The parts behind the message id.
  unfoldable pub fast_parts : ModelAction → Result Bytes
  fast_parts a = do
    correlation ← encode_hex_id a.correlation_id
    target ← encode_str16 a.target
    inputs ← encode_json_small float_repr float_of a.inputs
    params ← encode_if float_repr float_of a.params
    result ← encode_if float_repr float_of a.result
    deadline ← low_32 a.deadline_ms
    confidence ← encode_confidence_le a.confidence
    metadata ← encode_if float_repr float_of a.metadata
    ok (
        correlation
        ++ (target
            ++ (inputs ++ (params ++ (result ++ ((le 4 deadline) ++ (confidence ++ metadata)))))))

  -- `FastActionEncoder.encode`
  unfoldable pub fast_encode : FastActionEncoder → ModelAction → ℕ → Result Bytes × ℕ
  unfolding fast_parts
  fast_encode encoder a counter =
      let made = make_message_id counter in
      (
        made.0 >>= λ message_id.
            (fast_parts a >>= λ body.
            ok (fast_header a ++ (encoder.session_id ++ (message_id ++ body)))),
        made.1,
      )

  -- `FastActionEncoder.encode_to_ring`, with the function that pushes onto a ring.
  unfoldable pub encode_to_ring :
      {Ring : Type 0}
      → FastActionEncoder
      → ModelAction
      → (Bytes → Ring → Result Bool × Ring)
      → ℕ
      → Ring
      → (Result Bool × Ring) × ℕ
  unfolding fast_encode
  encode_to_ring encoder a push counter ring =
      let encoded = fast_encode encoder a counter in (push_wire push encoded.0 ring, encoded.1)

  -- `FastActionDecoder.decode` behind the header and the two ids.
  unfoldable pub fast_body : ModelIntent → ℕ → Bytes → Result ModelAction
  fast_body intent flags src = do
    let correlation_id = decode_hex_id (take 16 src)
    (target, r1) ← decode_str16 (drop 16 src)
    (inputs, r2) ← decode_json_small float_repr float_of r1
    (params, r3) ← decode_if float_repr float_of (has_flag flags fast_has_params) r2
    (result, r4) ← decode_if float_repr float_of (has_flag flags fast_has_result) r3
    (deadline_ms, r5) ← read_le 4 r4
    (confidence, r6) ← read_le 2 r5
    (metadata, r7) ← decode_if float_repr float_of (has_flag flags fast_has_metadata) r6
    ok (record {
      intent = intent;
      target = of_str target;
      inputs = inputs;
      params = params;
      result = result;
      confidence = of_float (of_thousandths confidence);
      stream = of_bool (has_flag flags fast_stream);
      cancel = of_bool (has_flag flags fast_cancel);
      correlation_id = of_str correlation_id;
      deadline_ms = of_int (pos deadline_ms);
      metadata = metadata;
    })

  abbrev pub fast_known : Option ModelIntent → ℕ → Bytes → Result ModelAction
  fast_known none flags src = err semantic_error
  fast_known (some intent) flags src = fast_body intent flags src

  -- `FastActionDecoder.decode`
  unfoldable pub fast_decode : Bytes → Result ModelAction
  fast_decode (version ∷ byte ∷ src) = do
    (flags, rest) ← read_le 4 src
    if version == 0x02
        then fast_known (isa_intent byte) flags (drop 32 rest)
        else err semantic_error
  fast_decode _ = err struct_error
