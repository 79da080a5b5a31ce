-- ===== src/Semantic/FastCodec/Parts.antt =====
-- aicl/semantic/fast_codec.py: the flags, the ids and the numbers, written and read back.
use aicl.Common.{
  ==_iff, Bool, Bool-cases, [], ap, arith, drop, false, if◌then◌else◌, inl, inr, length, min,
  negsuc, pos, refl, replicate, same_list, suc, sym, take, true, zero, ℕ, ℤ, ◌<◌, ◌==◌, ◌^◌, ◌∙◌,
  ◌≡◌,
}
use aicl.Py.Any.{Any, of_bool, of_dict, of_float, of_int, of_list, of_none, of_str, truthy}
use aicl.Py.Float.{of_thousandths}
use aicl.Py.Ints.{pack_int}
use aicl.Py.Result.{>>=-eq-ok, guard, map_ok, map_ok-eq-ok, ok, ok-injective, value_error}
use aicl.Py.Struct.{Bytes, be, length-be}
use aicl.Py.Utf8.{Str}
use aicl.Py.Uuid.{bare_uuid, dashed, hex, int_16, uuid_bytes, uuid_of_digits, uuid_text}
use aicl.Semantic.Action.{ModelAction}
use aicl.Semantic.FastCodec.{
  action_flags, decode_body, decode_correlation, encode_correlation, flag_cancel, flag_has_metadata,
  flag_has_params, flag_has_result, flag_stream, text_uuid,
}
use aicl.Semantic.Intents.{ModelIntent}
use aicl.Semantic.Wire.{
  at_most, decode_if, decode_json_small, decode_str16, encode_confidence, has_flag, low_32, read_be,
  thousandths,
}

-- Each flag is that of its own test.
pub action_flags_back :
    (s c p r m : Bool)
    → (has_flag (action_flags s c p r m) flag_stream ≡ s)
      × (has_flag (action_flags s c p r m) flag_cancel ≡ c)
      × (has_flag (action_flags s c p r m) flag_has_params ≡ p)
      × (has_flag (action_flags s c p r m) flag_has_result ≡ r)
      × (has_flag (action_flags s c p r m) flag_has_metadata ≡ m)
unfolding action_flags
action_flags_back s c p r m = ground arith

pub length-replicate : (n b : ℕ) → length (replicate n b) ≡ n
length-replicate zero b = refl
length-replicate (suc n) b = omega (arith, length-replicate n b)

length-uuid_of_digits : (h : Str) {b : Bytes} → uuid_of_digits h ≡ ok b → length b ≡ 16
length-uuid_of_digits h e =
    let (_, _, e1) =
      >>=-eq-ok (guard (length h == 32) value_error) (λ _. map_ok (be 16) (int_16 h)) e in
    let (n, _, is) = map_ok-eq-ok (be 16) (int_16 h) e1 in ap length (sym is) ∙ length-be 16 n

length-uuid_bytes : (s : Str) {b : Bytes} → uuid_bytes s ≡ ok b → length b ≡ 16
unfolding uuid_bytes
length-uuid_bytes s h = length-uuid_of_digits (bare_uuid s) h

length-text_uuid : (v : Any) {b : Bytes} → text_uuid v ≡ ok b → length b ≡ 16
length-text_uuid (of_str s) h = length-uuid_bytes s h
length-text_uuid of_none h = cc
length-text_uuid (of_bool x) h = cc
length-text_uuid (of_int z) h = cc
length-text_uuid (of_float d) h = cc
length-text_uuid (of_list vs) h = cc
length-text_uuid (of_dict d) h = cc

pub length-encode_correlation : (v : Any) {b : Bytes} → encode_correlation v ≡ ok b → length b ≡ 16
unfolding encode_correlation
length-encode_correlation v {b} h = elim (Bool-cases (truthy v)) [
  | inl there ↦
      length-text_uuid v
        (sym (ap (λ (t : Bool). if t then text_uuid v else ok (replicate 16 0)) there) ∙ h)
  | inr empty ↦
      ap length (
        sym (
          ok-injective
            (sym (ap (λ (t : Bool). if t then text_uuid v else ok (replicate 16 0)) empty) ∙ h)))
      ∙ length-replicate 16 0
]

-- Sixteen bytes are read as some text.
pub decode_correlation_total :
    (b : Bytes) → length b ≡ 16 → (c : Str) × (decode_correlation b ≡ ok c)
unfolding decode_correlation uuid_text
decode_correlation_total b h = elim (Bool-cases (same_list b (replicate 16 0))) [
  | inl zeros ↦ ([], rw zeros)
  | inr other ↦ (dashed (hex b), rw (other, (==_iff (length b) 16).1 h))
]

pack_confidence-eq-ok :
    (z : ℤ) {out : Bytes}
    → pack_int false 2 (at_most z) ≡ ok out
    → (n : ℕ) × (at_most z ≡ pos n) × (n < 65536) × (out ≡ be 2 n)
unfolding pack_int
pack_confidence-eq-ok (pos m) h = (min m 65535, refl, omega arith, ground (arith, h))
pack_confidence-eq-ok (negsuc m) h = cc

pub encode_confidence-eq-ok :
    (v : Any) {out : Bytes}
    → encode_confidence v ≡ ok out
    → (n : ℕ) × (map_ok at_most (thousandths v) ≡ ok (pos n)) × (n < 65536) × (out ≡ be 2 n)
unfolding encode_confidence
encode_confidence-eq-ok v h =
    let (z, e, k) = >>=-eq-ok (thousandths v) _ h in
    let (n, is, small, out_is) = pack_confidence-eq-ok z k in
    (n, ap (map_ok at_most) e ∙ ap ok is, small, out_is)

pub low_32-eq-ok : (v : Any) {n : ℕ} → low_32 v ≡ ok n → n < 2 ^ 32
low_32-eq-ok (of_int (pos m)) h = omega (arith, ok-injective h)
low_32-eq-ok (of_int (negsuc m)) h = omega (arith, ok-injective h)
low_32-eq-ok (of_bool true) h = omega (arith, ok-injective h)
low_32-eq-ok (of_bool false) h = omega (arith, ok-injective h)
low_32-eq-ok of_none h = cc
low_32-eq-ok (of_float d) h = cc
low_32-eq-ok (of_str s) h = cc
low_32-eq-ok (of_list vs) h = cc
low_32-eq-ok (of_dict d) h = cc

-- The action that arrives: the confidence in thousandths, the deadline modulo 2 ^ 32, and the
-- correlation id as the text of its sixteen bytes.
abbrev pub received : ModelAction → ℕ → Str → ℕ → ModelAction
received a n c d = record a {
  confidence = of_float (of_thousandths n);
  correlation_id = of_str c;
  deadline_ms = of_int (pos d);
}

module _ (float_repr : ℕ → Str) (float_of : Str → ℕ) where
  pub decode_body_parts :
      (intent : ModelIntent) (flags : ℕ) (src : Bytes) {target : Str} {r1 : Bytes} {inputs : Any}
      {r2 : Bytes} {params : Any} {r3 : Bytes} {result : Any} {r4 : Bytes} {correlation : Str}
      {deadline : ℕ} {r6 : Bytes} {confidence : ℕ} {r7 : Bytes} {metadata : Any} {r8 : Bytes}
      → decode_str16 src ≡ ok (target, r1)
      → decode_json_small float_repr float_of r1 ≡ ok (inputs, r2)
      → decode_if float_repr float_of (has_flag flags flag_has_params) r2 ≡ ok (params, r3)
      → decode_if float_repr float_of (has_flag flags flag_has_result) r3 ≡ ok (result, r4)
      → decode_correlation (take 16 r4) ≡ ok correlation
      → read_be 4 (drop 16 r4) ≡ ok (deadline, r6)
      → read_be 2 r6 ≡ ok (confidence, r7)
      → decode_if float_repr float_of (has_flag flags flag_has_metadata) r7 ≡ ok (metadata, r8)
      → decode_body float_repr float_of intent flags src
        ≡ ok (record {
          intent = intent;
          target = of_str target;
          inputs = inputs;
          params = params;
          result = result;
          confidence = of_float (of_thousandths confidence);
          stream = of_bool (has_flag flags flag_stream);
          cancel = of_bool (has_flag flags flag_cancel);
          correlation_id = of_str correlation;
          deadline_ms = of_int (pos deadline);
          metadata = metadata;
        })
  unfolding decode_body
  decode_body_parts intent flags src h1 h2 h3 h4 h5 h6 h7 h8 = rw (h1, h2, h3, h4, h5, h6, h7, h8)
