-- ===== src/Semantic/FastCodec/RoundTrip.antt =====
-- aicl/semantic/fast_codec.py: what `decode_action` makes of the bytes of `encode_action`.
use aicl.Common.{
  Bool, [], ap, append-nil, drop-append, length, pos, sym, take-append, ℕ, ◌++◌, ◌<◌, ◌^◌, ◌∙◌, ◌∷◌,
  ◌≡◌,
}
use aicl.Py.Any.{Dict, of_bool, of_dict, of_float, of_int, of_str, truthy}
use aicl.Py.Float.{of_thousandths}
use aicl.Py.Json.Heads.{IsJson}
use aicl.Py.Result.{>>=-eq-ok, map_ok, ok, ok-injective}
use aicl.Py.Struct.{Bytes, be}
use aicl.Py.Utf8.{Str}
use aicl.Semantic.Action.{ModelAction}
use aicl.Semantic.Action.RoundTrip.{IsTyped, typed}
use aicl.Semantic.FastCodec.{
  action_flags, decode_action, decode_body, decode_correlation, encode_action, encode_correlation,
  flags_of,
}
use aicl.Semantic.FastCodec.Parts.{
  action_flags_back, decode_body_parts, decode_correlation_total, encode_confidence-eq-ok,
  length-encode_correlation, low_32-eq-ok, received,
}
use aicl.Semantic.Intents.{ModelIntent, intent_byte}
use aicl.Semantic.Intents.Codes.{byte_to_intent-intent_byte}
use aicl.Semantic.Wire.{
  at_most, decode_if, encode_confidence, encode_if, encode_json_small, encode_str16, low_32,
  read_be, thousandths,
}
use aicl.Semantic.Wire.Fields.{
  decode_if-encode_if, decode_json_small-encode_json_small, decode_str16-encode_str16, read_be-be,
}

module _ (float_repr : ℕ → Str) (float_of : Str → ℕ) where
  -- The dicts of an action can be printed as JSON and read back.
  abbrev pub HasJson : Dict → Dict → Dict → Dict → Type 0
  HasJson inp par res me =
      IsJson float_repr float_of (of_dict inp)
      × IsJson float_repr float_of (of_dict par)
      × IsJson float_repr float_of (of_dict res)
      × IsJson float_repr float_of (of_dict me)

  -- The parts behind the header and the session id.
  body_back :
      (i : ModelIntent) (t : Str) (inp par res me : Dict) (s c : Bool)
      (target inputs params result correlation metadata : Bytes) (k : Str) (n d : ℕ)
      → HasJson inp par res me
      → encode_str16 (of_str t) ≡ ok target
      → encode_json_small float_repr float_of (of_dict inp) ≡ ok inputs
      → encode_if float_repr float_of (of_dict par) ≡ ok params
      → encode_if float_repr float_of (of_dict res) ≡ ok result
      → length correlation ≡ 16
      → decode_correlation correlation ≡ ok k
      → d < 2 ^ 32
      → n < 65536
      → encode_if float_repr float_of (of_dict me) ≡ ok metadata
      → decode_body float_repr float_of i
          (action_flags s c (truthy (of_dict par)) (truthy (of_dict res)) (truthy (of_dict me)))
          (target
            ++ (inputs
                ++ (params ++ (result ++ (correlation ++ (be 4 d ++ (be 2 n ++ metadata)))))))
        ≡ ok (record {
          intent = i;
          target = of_str t;
          inputs = of_dict inp;
          params = of_dict par;
          result = of_dict res;
          confidence = of_float (of_thousandths n);
          stream = of_bool s;
          cancel = of_bool c;
          correlation_id = of_str k;
          deadline_ms = of_int (pos d);
          metadata = of_dict me;
        })
  body_back i t inp par res me s c target inputs params result correlation metadata k n d js h1 h2
        h3 h4 h5 h6 h7 h8 h9 =
      let back =
        action_flags_back s c (truthy (of_dict par)) (truthy (of_dict res)) (truthy (of_dict me)) in
      let flags : ℕ =
        action_flags s c (truthy (of_dict par)) (truthy (of_dict res)) (truthy (of_dict me)) in
      let r7 : Bytes = metadata in
      let r6 : Bytes = be 2 n ++ r7 in
      let r5 : Bytes = be 4 d ++ r6 in
      let r4 : Bytes = correlation ++ r5 in
      let r3 : Bytes = result ++ r4 in
      let r2 : Bytes = params ++ r3 in
      decode_body_parts float_repr float_of i flags (target ++ (inputs ++ r2))
        (decode_str16-encode_str16 t (inputs ++ r2) h1)
        (decode_json_small-encode_json_small float_repr float_of inp r2 js.0 h2)
        (ap (λ (b : Bool). decode_if float_repr float_of b r2) back.2
          ∙ decode_if-encode_if float_repr float_of par r3 js.1 h3)
        (ap (λ (b : Bool). decode_if float_repr float_of b r3) back.3
          ∙ decode_if-encode_if float_repr float_of res r4 js.2 h4)
        (ap decode_correlation (take-append 16 correlation r5 h5) ∙ h6)
        (ap (read_be 4) (drop-append 16 correlation r5 h5) ∙ read_be-be 4 d r6 h7)
        (read_be-be 2 n r7 h8)
        (ap (λ (b : Bool). decode_if float_repr float_of b r7) back.4
          ∙ ap (decode_if float_repr float_of (truthy (of_dict me))) (sym (append-nil metadata))
          ∙ decode_if-encode_if float_repr float_of me [] js.3 h9)
      ∙ (λ j. ok (record {
        intent = i;
        target = of_str t;
        inputs = of_dict inp;
        params = of_dict par;
        result = of_dict res;
        confidence = of_float (of_thousandths n);
        stream = of_bool (back.0 j);
        cancel = of_bool (back.1 j);
        correlation_id = of_str k;
        deadline_ms = of_int (pos d);
        metadata = of_dict me;
      }))

  -- The header in front of them.
  decode_action_known :
      (i : ModelIntent) (flags : ℕ) (session body : Bytes)
      → length session ≡ 16
      → decode_action float_repr float_of (0x01 ∷ intent_byte i ∷ flags ∷ (session ++ body))
        ≡ decode_body float_repr float_of i flags body
  unfolding decode_action
  decode_action_known i flags session body h =
      rw (byte_to_intent-intent_byte i, drop-append 16 session body h)

  -- The dicts of an action whose fields have their types.
  abbrev pub DictsJson : ModelAction → Type 0
  DictsJson a =
      IsJson float_repr float_of a.inputs
      × IsJson float_repr float_of a.params
      × IsJson float_repr float_of a.result
      × IsJson float_repr float_of a.metadata

  -- If `encode_action` succeeds on an action whose fields have their types and whose dicts are read
  -- back from JSON, `decode_action` accepts the bytes and yields the action with three changes: the
  -- confidence is cut to thousandths, of which there are 65535 at most, the deadline is taken modulo
  -- 2 ^ 32, and the correlation id is the text of its sixteen bytes.
  pub decode_action-encode_action :
      (session : Bytes) (a : ModelAction) {wire : Bytes}
      → IsTyped a
      → DictsJson a
      → length session ≡ 16
      → encode_action float_repr float_of session a ≡ ok wire
      → (n : ℕ) × (d : ℕ) × (b : Bytes) × (k : Str) × (map_ok at_most (thousandths a.confidence)
          ≡ ok (pos n))
        × (low_32 a.deadline_ms ≡ ok d)
        × (encode_correlation a.correlation_id ≡ ok b)
        × (decode_correlation b ≡ ok k)
        × (decode_action float_repr float_of wire ≡ ok (received a n k d))
  unfolding encode_action flags_of
  decode_action-encode_action session a (typed i t inp par res c st ca co dl me) js size packs =
      let (target, h1, e1) = >>=-eq-ok (encode_str16 (of_str t)) _ packs in
      let (inputs, h2, e2) = >>=-eq-ok (encode_json_small float_repr float_of (of_dict inp)) _ e1 in
      let (params, h3, e3) = >>=-eq-ok (encode_if float_repr float_of (of_dict par)) _ e2 in
      let (result, h4, e4) = >>=-eq-ok (encode_if float_repr float_of (of_dict res)) _ e3 in
      let (b, h5, e5) = >>=-eq-ok (encode_correlation (of_str co)) _ e4 in
      let (d, h6, e6) = >>=-eq-ok (low_32 (of_int dl)) _ e5 in
      let (conf, h7, e7) = >>=-eq-ok (encode_confidence (of_float c)) _ e6 in
      let (metadata, h8, e8) = >>=-eq-ok (encode_if float_repr float_of (of_dict me)) _ e7 in
      let (n, nis, small, cis) = encode_confidence-eq-ok (of_float c) h7 in
      let (k, kis) = decode_correlation_total b (length-encode_correlation (of_str co) h5) in
      (
        n,
        d,
        b,
        k,
        nis,
        h6,
        h5,
        kis,
        ap (decode_action float_repr float_of) (sym (ok-injective e8))
            ∙ decode_action_known i _ session _ size
            ∙ ap
                (λ (x : Bytes).
                  decode_body float_repr float_of i
                    (action_flags st ca (truthy (of_dict par)) (truthy (of_dict res))
                      (truthy (of_dict me)))
                    (target
                      ++ (inputs ++ (params ++ (result ++ (b ++ (be 4 d ++ (x ++ metadata))))))))
                cis
            ∙ body_back i t inp par res me st ca target inputs params result b metadata k n d js h1
                h2 h3 h4 (length-encode_correlation (of_str co) h5) kis
                (low_32-eq-ok (of_int dl) h6) small h8,
      )
