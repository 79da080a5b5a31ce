-- ===== src/Semantic/FastAction/MessageIds.antt =====
-- aicl/semantic/fast_action_codec.py: the message ids that one counter gives out.
use aicl.Common.{
  ap, arith, drop, drop-append, length, refl, replicate, suc, sym, take, take-append, ℕ, ◌%◌, ◌++◌,
  ◌/◌, ◌<◌, ◌^◌, ◌∙◌, ◌∷◌, ◌≡◌, ◌≤◌,
}
use aicl.Py.Result.{ok}
use aicl.Py.Struct.{Bytes}
use aicl.Py.Utf8.{Str}
use aicl.Semantic.Action.{ModelAction}
use aicl.Semantic.FastAction.{
  FastActionEncoder, fast_encode, fast_flags_of, isa_byte, make_message_id,
}
use aicl.Semantic.FastAction.Parts.{make_message_id-eq-ok}
use aicl.Semantic.FastAction.RoundTrip.{fast_encode-eq-ok}
use aicl.Semantic.Wire.{from_le, le}
use aicl.Semantic.Wire.Fields.{from_le-le}

-- The message id in the bytes of an action.
abbrev pub message_id_in : Bytes → Bytes
message_id_in wire = take 16 (drop 22 wire)

message_id_in_wire :
    (b0 b1 b2 b3 b4 b5 : ℕ) (session id body : Bytes)
    → length session ≡ 16
    → length id ≡ 16
    → message_id_in (b0 ∷ b1 ∷ b2 ∷ b3 ∷ b4 ∷ b5 ∷ (session ++ (id ++ body))) ≡ id
message_id_in_wire b0 b1 b2 b3 b4 b5 session id body h1 h2 =
    ap (take 16) (drop-append 16 session (id ++ body) h1) ∙ take-append 16 id body h2

-- An id tells the number of its counter.
number_of_id : Bytes → ℕ
number_of_id id = from_le (drop 8 id)

number_of_id_made : (n : ℕ) → n < 256 ^ 8 → number_of_id (replicate 8 0 ++ le 8 n) ≡ n
unfolding number_of_id
number_of_id_made n h = from_le-le 8 n h

module _ (float_repr : ℕ → Str) (float_of : Str → ℕ) where
  message_id_in-fast_encode :
      (encoder : FastActionEncoder) (a : ModelAction) (counter : ℕ) {wire : Bytes}
      → length encoder.session_id ≡ 16
      → (fast_encode float_repr float_of encoder a counter).0 ≡ ok wire
      → (suc counter < 256 ^ 8)
        × (message_id_in wire ≡ replicate 8 0 ++ le 8 (suc counter))
        × ((fast_encode float_repr float_of encoder a counter).1 ≡ suc counter)
  unfolding fast_encode make_message_id le
  message_id_in-fast_encode encoder a counter size h =
      let (id, body, h1, h2, is) = fast_encode-eq-ok float_repr float_of encoder a counter h in
      let (small, id_is, id_size) = make_message_id-eq-ok counter h1 in
      let flags = fast_flags_of a in
      (
        small,
        ap message_id_in is
            ∙ message_id_in_wire 0x02 (isa_byte a.intent) (flags % 256) (flags / 256 % 256)
                (flags / 256 / 256 % 256) (flags / 256 / 256 / 256 % 256) encoder.session_id id body
                size id_size
            ∙ id_is,
        refl,
      )

  -- Two encodings that succeed with session ids of sixteen bytes, the second with the counter that
  -- the first left behind or a later one, carry different message ids, whatever the encoders and the
  -- actions.
  pub message_ids_differ :
      (e1 e2 : FastActionEncoder) (a1 a2 : ModelAction) (m n : ℕ) {w1 w2 : Bytes}
      → length e1.session_id ≡ 16
      → length e2.session_id ≡ 16
      → (fast_encode float_repr float_of e1 a1 m).0 ≡ ok w1
      → (fast_encode float_repr float_of e1 a1 m).1 ≤ n
      → (fast_encode float_repr float_of e2 a2 n).0 ≡ ok w2
      → ¬ (message_id_in w1 ≡ message_id_in w2)
  message_ids_differ e1 e2 a1 a2 m n size1 size2 h1 later h2 same =
      let (small1, id1, after) = message_id_in-fast_encode e1 a1 m size1 h1 in
      let (small2, id2, _) = message_id_in-fast_encode e2 a2 n size2 h2 in
      let equal : suc m ≡ suc n =
        sym (number_of_id_made (suc m) small1)
        ∙ ap number_of_id (sym id1 ∙ same ∙ id2)
        ∙ number_of_id_made (suc n) small2 in
      omega (arith, equal, after, later)
