-- ===== src/Semantic/FastAction/RoundTrip.antt =====
-- aicl/semantic/fast_action_codec.py: what `fast_decode` makes of the bytes of `fast_encode`, and the
-- message ids of one counter.
use aicl.Common.{
  Bool, [], ap, append-nil, append_assoc, arith, drop, drop-append, length, length-append, pos, sym,
  take-append, ℕ, ◌++◌, ◌<◌, ◌^◌, ◌∙◌, ◌∷◌, ◌≡◌,
}
use aicl.Py.Any.{Dict, of_bool, of_dict, of_float, of_int, of_str, truthy}
use aicl.Py.Float.{of_thousandths}
use aicl.Py.Result.{>>=-eq-ok, map_ok, ok, ok-injective}
use aicl.Py.Struct.{Bytes}
use aicl.Py.Utf8.{Str}
use aicl.Semantic.Action.{ModelAction}
use aicl.Semantic.Action.RoundTrip.{IsTyped, typed}
use aicl.Semantic.FastAction.{
  FastActionEncoder, decode_hex_id, encode_hex_id, fast_body, fast_decode, fast_encode, fast_flags,
  fast_flags_of, fast_header, fast_parts, isa_byte, make_message_id,
}
use aicl.Semantic.FastAction.Parts.{
  encode_confidence_le-eq-ok, fast_body_parts, fast_flags_back, isa_intent-isa_byte,
  make_message_id-eq-ok,
}
use aicl.Semantic.FastCodec.Parts.{low_32-eq-ok, received}
use aicl.Semantic.FastCodec.RoundTrip.{DictsJson, HasJson}
use aicl.Semantic.Intents.{ModelIntent}
use aicl.Semantic.Wire.{
  at_most, decode_if, decode_str16, encode_confidence_le, encode_if, encode_json_small,
  encode_str16, le, low_32, thousandths,
}
use aicl.Semantic.Wire.Fields.{
  decode_if-encode_if, decode_json_small-encode_json_small, decode_str16-encode_str16, read_le-le,
}

module _ (float_repr : ℕ → Str) (float_of : Str → ℕ) where
  -- The parts behind the message id.
  fast_body_back :
      (i : ModelIntent) (t : Str) (inp par res me : Dict) (s c : Bool)
      (correlation target inputs params result metadata : Bytes) (n d : ℕ)
      → HasJson float_repr float_of inp par res me
      → length correlation ≡ 16
      → encode_str16 (of_str t) ≡ ok target
      → encode_json_small float_repr float_of (of_dict inp) ≡ ok inputs
      → encode_if float_repr float_of (of_dict par) ≡ ok params
      → encode_if float_repr float_of (of_dict res) ≡ ok result
      → d < 2 ^ 32
      → n < 65536
      → encode_if float_repr float_of (of_dict me) ≡ ok metadata
      → fast_body float_repr float_of i
          (fast_flags s c (truthy (of_dict par)) (truthy (of_dict res)) (truthy (of_dict me)))
          (correlation
            ++ (target ++ (inputs ++ (params ++ (result ++ (le 4 d ++ (le 2 n ++ metadata)))))))
        ≡ ok (record {
          intent = i;
          target = of_str t;
          inputs = of_dict inp;
          params = of_dict par;
          result = of_dict res;
          confidence = of_float (of_thousandths n);
          stream = of_bool s;
          cancel = of_bool c;
          correlation_id = of_str (decode_hex_id correlation);
          deadline_ms = of_int (pos d);
          metadata = of_dict me;
        })
  fast_body_back i t inp par res me s c correlation target inputs params result metadata n d js h1
        h2 h3 h4 h5 h6 h7 h8 =
      let back =
        fast_flags_back s c (truthy (of_dict par)) (truthy (of_dict res)) (truthy (of_dict me)) in
      let flags : ℕ =
        fast_flags s c (truthy (of_dict par)) (truthy (of_dict res)) (truthy (of_dict me)) in
      let r6 : Bytes = metadata in
      let r5 : Bytes = le 2 n ++ r6 in
      let r4 : Bytes = le 4 d ++ r5 in
      let r3 : Bytes = result ++ r4 in
      let r2 : Bytes = params ++ r3 in
      let r1 : Bytes = inputs ++ r2 in
      fast_body_parts float_repr float_of i flags (correlation ++ (target ++ r1))
        (take-append 16 correlation (target ++ r1) h1)
        (ap decode_str16 (drop-append 16 correlation (target ++ r1) h1)
          ∙ decode_str16-encode_str16 t r1 h2)
        (decode_json_small-encode_json_small float_repr float_of inp r2 js.0 h3)
        (ap (λ (b : Bool). decode_if float_repr float_of b r2) back.2
          ∙ decode_if-encode_if float_repr float_of par r3 js.1 h4)
        (ap (λ (b : Bool). decode_if float_repr float_of b r3) back.3
          ∙ decode_if-encode_if float_repr float_of res r4 js.2 h5)
        (read_le-le 4 d r5 h6) (read_le-le 2 n r6 h7)
        (ap (λ (b : Bool). decode_if float_repr float_of b r6) back.4
          ∙ ap (decode_if float_repr float_of (truthy (of_dict me))) (sym (append-nil metadata))
          ∙ decode_if-encode_if float_repr float_of me [] js.3 h8)
      ∙ (λ j. ok (record {
        intent = i;
        target = of_str t;
        inputs = of_dict inp;
        params = of_dict par;
        result = of_dict res;
        confidence = of_float (of_thousandths n);
        stream = of_bool (back.0 j);
        cancel = of_bool (back.1 j);
        correlation_id = of_str (decode_hex_id correlation);
        deadline_ms = of_int (pos d);
        metadata = of_dict me;
      }))

  -- The header and the two ids in front of them.
  fast_decode_known :
      (i : ModelIntent) (flags : ℕ) (session message body : Bytes)
      → flags < 256 ^ 4
      → length session ≡ 16
      → length message ≡ 16
      → fast_decode float_repr float_of
          (0x02 ∷ isa_byte i ∷ (le 4 flags ++ (session ++ (message ++ body))))
        ≡ fast_body float_repr float_of i flags body
  unfolding fast_decode
  fast_decode_known i flags session message body small h1 h2 =
      (rw (read_le-le 4 flags (session ++ (message ++ body)) small, isa_intent-isa_byte i))
      ∙ ap (fast_body float_repr float_of i flags) (
          ap (drop 32) (sym (append_assoc session message body))
          ∙ drop-append 32 (session ++ message) body (omega (arith, length-append session message)))

  -- What the success of `fast_encode` says of its parts.
  pub fast_encode-eq-ok :
      (encoder : FastActionEncoder) (a : ModelAction) (counter : ℕ) {wire : Bytes}
      → (fast_encode float_repr float_of encoder a counter).0 ≡ ok wire
      → (id : Bytes) × (body : Bytes) × ((make_message_id counter).0 ≡ ok id)
        × (fast_parts float_repr float_of a ≡ ok body)
        × (wire ≡ fast_header a ++ (encoder.session_id ++ (id ++ body)))
  unfolding fast_encode
  fast_encode-eq-ok encoder a counter h =
      let (id, h1, e1) = >>=-eq-ok (make_message_id counter).0 _ h in
      let (body, h2, e2) = >>=-eq-ok (fast_parts float_repr float_of a) _ e1 in
      (id, body, h1, h2, sym (ok-injective e2))

  parts_back :
      (a : ModelAction) {body b : Bytes}
      → IsTyped a
      → DictsJson float_repr float_of a
      → encode_hex_id a.correlation_id ≡ ok b
      → length b ≡ 16
      → fast_parts float_repr float_of a ≡ ok body
      → (n : ℕ) × (d : ℕ) × (map_ok at_most (thousandths a.confidence) ≡ ok (pos n))
        × (low_32 a.deadline_ms ≡ ok d)
        × (fast_body float_repr float_of a.intent (fast_flags_of a) body
            ≡ ok (received a n (decode_hex_id b) d))
  unfolding fast_parts
  parts_back a {body} {b} (typed i t inp par res c st ca co dl me) js bis size packs =
      let (b2, h1, e1) = >>=-eq-ok (encode_hex_id (of_str co)) _ packs in
      let same : b2 ≡ b = ok-injective (sym h1 ∙ bis) in
      let (target, h2, e2) = >>=-eq-ok (encode_str16 (of_str t)) _ e1 in
      let (inputs, h3, e3) = >>=-eq-ok (encode_json_small float_repr float_of (of_dict inp)) _ e2 in
      let (params, h4, e4) = >>=-eq-ok (encode_if float_repr float_of (of_dict par)) _ e3 in
      let (result, h5, e5) = >>=-eq-ok (encode_if float_repr float_of (of_dict res)) _ e4 in
      let (d, h6, e6) = >>=-eq-ok (low_32 (of_int dl)) _ e5 in
      let (conf, h7, e7) = >>=-eq-ok (encode_confidence_le (of_float c)) _ e6 in
      let (metadata, h8, e8) = >>=-eq-ok (encode_if float_repr float_of (of_dict me)) _ e7 in
      let (n, nis, small, cis) = encode_confidence_le-eq-ok (of_float c) h7 in
      let flags : ℕ =
        fast_flags st ca (truthy (of_dict par)) (truthy (of_dict res)) (truthy (of_dict me)) in
      (
        n,
        d,
        nis,
        h6,
        ap (fast_body float_repr float_of i flags) (sym (ok-injective e8))
            ∙ (λ j. fast_body float_repr float_of i flags (
                same j
                ++ (target ++ (inputs ++ (params ++ (result ++ (le 4 d ++ (cis j ++ metadata))))))))
            ∙ fast_body_back i t inp par res me st ca b target inputs params result metadata n d js
                size h2 h3 h4 h5 (low_32-eq-ok (of_int dl) h6) small h8,
      )

  -- If `fast_encode` succeeds on an action whose fields have their types and whose dicts are read
  -- back from JSON, with a session id of sixteen bytes and a correlation id of sixteen, `fast_decode`
  -- accepts the bytes and yields the action with three changes: the confidence is cut to thousandths,
  -- of which there are 65535 at most, the deadline is taken modulo 2 ^ 32, and the correlation id is
  -- the hex text of its bytes.
  pub fast_decode-fast_encode :
      (encoder : FastActionEncoder) (a : ModelAction) (counter : ℕ) {wire b : Bytes}
      → IsTyped a
      → DictsJson float_repr float_of a
      → length encoder.session_id ≡ 16
      → encode_hex_id a.correlation_id ≡ ok b
      → length b ≡ 16
      → (fast_encode float_repr float_of encoder a counter).0 ≡ ok wire
      → (n : ℕ) × (d : ℕ) × (map_ok at_most (thousandths a.confidence) ≡ ok (pos n))
        × (low_32 a.deadline_ms ≡ ok d)
        × (fast_decode float_repr float_of wire ≡ ok (received a n (decode_hex_id b) d))
  fast_decode-fast_encode encoder a counter typ js size bis bsize h =
      let (id, body, h1, h2, is) = fast_encode-eq-ok encoder a counter h in
      let (small, idis, idsize) = make_message_id-eq-ok counter h1 in
      let (n, d, nis, dis, back) = parts_back a typ js bis bsize h2 in
      (
        n,
        d,
        nis,
        dis,
        ap (fast_decode float_repr float_of) is
            ∙ fast_decode_known a.intent (fast_flags_of a) encoder.session_id id body
                (fast_flags_back (truthy a.stream) (truthy a.cancel) (truthy a.params)
                  (truthy a.result) (truthy a.metadata)).5
                size idsize
            ∙ back,
      )
