-- ===== src/Semantic/Wire/Fields.antt =====
-- The fields of the fast codecs, written and read back with anything behind them.
use aicl.Common.{
  [], ap, append_assoc, arith, drop-append, false, length, length-append, le→ltb, lt→ltb, refl, suc,
  sym, take-append, zero, ℕ, ◌++◌, ◌/◌, ◌<◌, ◌==◌, ◌^◌, ◌∙◌, ◌∷◌, ◌≡◌,
}
use aicl.Py.Any.{Dict, key, no_keys, of_dict, of_str, truthy}
use aicl.Py.Ints.{pack_int}
use aicl.Py.Json.Dump.{dump_first_key, dumps}
use aicl.Py.Json.Heads.{IsJson, compact}
use aicl.Py.Json.RoundTrip.{loads-dumps}
use aicl.Py.Result.{Result, err, ok, ok-injective}
use aicl.Py.Struct.{Bytes, be, from_be-be, length-be}
use aicl.Py.Utf8.{Str, utf8_decode, utf8_encode}
use aicl.Py.Utf8.Laws.{utf8_decode-utf8_encode}
use aicl.Semantic.Wire.{
  decode_if, decode_json_small, decode_str16, encode_if, encode_json_small, encode_str16, from_le,
  le, read_be, read_le, sized,
}
use native.Mathlib.Decide.{dec_lt}
use native.Mathlib.Nat.{pow-suc}

pub read_be-be : (w n : ℕ) (rest : Bytes) → n < 256 ^ w → read_be w (be w n ++ rest) ≡ ok (n, rest)
unfolding read_be
read_be-be w n rest h = rw (
  le→ltb (length (be w n ++ rest)) w (omega (arith, length-append (be w n) rest, length-be w n)),
  take-append w (be w n) rest (length-be w n),
  drop-append w (be w n) rest (length-be w n),
  from_be-be w n h,
)

pub length-le : (w n : ℕ) → length (le w n) ≡ w
unfolding le
length-le zero n = refl
length-le (suc w) n = omega (arith, length-le w (n / 256))

pub from_le-le : (w n : ℕ) → n < 256 ^ w → from_le (le w n) ≡ n
unfolding le from_le
from_le-le zero n h = omega arith
from_le-le (suc w) n h = omega (arith, from_le-le w (n / 256) (omega (arith, pow-suc 256 w)))

pub read_le-le : (w n : ℕ) (rest : Bytes) → n < 256 ^ w → read_le w (le w n ++ rest) ≡ ok (n, rest)
unfolding read_le
read_le-le w n rest h = rw (
  le→ltb (length (le w n ++ rest)) w (omega (arith, length-append (le w n) rest, length-le w n)),
  take-append w (le w n) rest (length-le w n),
  drop-append w (le w n) rest (length-le w n),
  from_le-le w n h,
)

-- What `sized` makes of an encoded text.
sized-eq-ok :
    (r : Result Bytes) {out : Bytes}
    → sized r ≡ ok out
    → (b : Bytes) × (r ≡ ok b) × (length b < 65536) × (out ≡ be 2 (length b) ++ b)
unfolding pack_int
sized-eq-ok (err e) h = cc
sized-eq-ok (ok b) h = elim (dec_lt (length b) 65536) [
  | yes lt ↦ (b, refl, lt, ground (arith, h, lt→ltb (length b) 65536 lt))
  | no ge ↦ absurd (grind (arith, h, le→ltb (length b) 65536 (omega arith)))
]

pub decode_str16-encode_str16 :
    (s : Str) (rest : Bytes) {out : Bytes}
    → encode_str16 (of_str s) ≡ ok out
    → decode_str16 (out ++ rest) ≡ ok (s, rest)
unfolding encode_str16 decode_str16
decode_str16-encode_str16 s rest {out} h =
    let (b, enc, small, is) = sized-eq-ok (utf8_encode s) h in
    ap (λ (t : Bytes). decode_str16 (t ++ rest)) is
    ∙ ap decode_str16 (append_assoc (be 2 (length b)) b rest)
    ∙ rw (
      read_be-be 2 (length b) (b ++ rest) small,
      take-append (length b) b rest refl,
      drop-append (length b) b rest refl,
      (utf8_decode-utf8_encode s enc).0,
    )

read_be_zeros : (rest : Bytes) → read_be 2 (0 ∷ 0 ∷ rest) ≡ ok (0, rest)
unfolding be
read_be_zeros rest = read_be-be 2 0 rest (omega arith)

nil_text : Result Str
nil_text = ok []

ok_nil_cons : {c : ℕ} {s : Str} → nil_text ≡ ok (c ∷ s) → ⊥
unfolding nil_text
ok_nil_cons h = cc

utf8_encode_not_empty :
    (c : ℕ) (s : Str) (b : Bytes) → utf8_encode (c ∷ s) ≡ ok b → (length b == 0) ≡ false
unfolding utf8_decode nil_text
utf8_encode_not_empty c s [] h = absurd (ok_nil_cons ((utf8_decode-utf8_encode (c ∷ s) h).0))
utf8_encode_not_empty c s (x ∷ b) h = ground arith

module _ (float_repr : ℕ → Str) (float_of : Str → ℕ) where
  pub decode_json_small-encode_json_small :
      (d : Dict) (rest : Bytes) {out : Bytes}
      → IsJson float_repr float_of (of_dict d)
      → encode_json_small float_repr float_of (of_dict d) ≡ ok out
      → decode_json_small float_repr float_of (out ++ rest) ≡ ok (of_dict d, rest)
  unfolding encode_json_small decode_json_small dumps
  decode_json_small-encode_json_small no_keys rest j h =
      ap (λ (t : Bytes). decode_json_small float_repr float_of (t ++ rest)) (sym (ok-injective h))
      ∙ rw (read_be_zeros rest)
  decode_json_small-encode_json_small (key k v d) rest {out} j h =
      let t : Str = dumps float_repr compact (of_dict (key k v d)) in
      let (b, enc, small, is) = sized-eq-ok (utf8_encode t) h in
      ap (λ (x : Bytes). decode_json_small float_repr float_of (x ++ rest)) is
      ∙ ap (decode_json_small float_repr float_of) (append_assoc (be 2 (length b)) b rest)
      ∙ rw (
        read_be-be 2 (length b) (b ++ rest) small,
        utf8_encode_not_empty 0x7B (dump_first_key float_repr compact (key k v d)) b enc,
        take-append (length b) b rest refl,
        drop-append (length b) b rest refl,
        (utf8_decode-utf8_encode t enc).0,
        loads-dumps float_repr float_of (of_dict (key k v d)) j,
      )

  pub decode_if-encode_if :
      (d : Dict) (rest : Bytes) {out : Bytes}
      → IsJson float_repr float_of (of_dict d)
      → encode_if float_repr float_of (of_dict d) ≡ ok out
      → decode_if float_repr float_of (truthy (of_dict d)) (out ++ rest) ≡ ok (of_dict d, rest)
  decode_if-encode_if no_keys rest j h =
      ap (λ (x : Bytes). ok (of_dict no_keys, x ++ rest)) (sym (ok-injective h))
  decode_if-encode_if (key k v d) rest j h =
      decode_json_small-encode_json_small (key k v d) rest j h
