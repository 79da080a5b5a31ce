-- ===== src/Bin/Access/Texts.antt =====
-- aicl/bin/codec_packet.py and aicl/bin/codec_view.py: the values that hold texts are read back.
use aicl.Common.{
  [], ap, arith, false, length, pos, refl, subst, sym, true, ℕ, ◌++◌, ◌+◌, ◌∙◌, ◌∷◌, ◌≡◌,
}
use aicl.Bin.Access.{int_at, read_trace}
use aicl.Bin.Access.Fixed.{front_byte, int_at-last, int_at-next, int_at-pack_int, int_at-skip}
use aicl.Bin.Packet.{pack_trace}
use aicl.Bin.Types.{TraceEntry, pack_len}
use aicl.Bin.Types.Laws.{pack_byte, pack_len_byte}
use aicl.Py.Ints.{pack_int}
use aicl.Py.Result.{>>=-eq-ok, ok, ok-injective}
use aicl.Py.Struct.{Bytes, slice, slice-append}
use aicl.Py.Utf8.{Str, utf8_decode, utf8_encode}
use aicl.Py.Utf8.Laws.{utf8_decode-utf8_encode}

-- A part between two others, found by its offset and length.
pub text_at :
    (i n : ℕ) (s : Str) (xs : Bytes) {ys : Bytes} (zs : Bytes)
    → utf8_encode s ≡ ok ys
    → length xs ≡ i
    → length ys ≡ n
    → utf8_decode (slice i n (xs ++ (ys ++ zs))) ≡ ok s
text_at i n s xs {ys} zs e h k =
    ap utf8_decode (slice-append i n xs ys zs h k) ∙ (utf8_decode-utf8_encode s e).0

trace_bytes :
    (t : TraceEntry) (k : ℕ) {an ac ts dur : Bytes}
    → t.actor_type ≡ pos k
    → utf8_encode t.actor_name ≡ ok an
    → utf8_encode t.action ≡ ok ac
    → pack_int true 8 t.timestamp_ms ≡ ok ts
    → pack_int true 4 t.duration_us ≡ ok dur
    → read_trace (k ∷ length an ∷ length ac ∷ (an ++ (ac ++ (ts ++ dur)))) ≡ ok t
unfolding read_trace
trace_bytes t k {an} {ac} {ts} {dur} zk pn pc pt pd =
    let nl : ℕ = length an in
    let al : ℕ = length ac in
    let v : Bytes = k ∷ nl ∷ al ∷ (an ++ (ac ++ (ts ++ dur))) in
    let skip : (w j i : ℕ) → j ≡ 3 + nl + al + i → int_at true w j v ≡ int_at true w i (ts ++ dur) =
      λ w j i h.
        int_at-skip true w j 3 (nl + al + i) (k ∷ nl ∷ al ∷ []) (an ++ (ac ++ (ts ++ dur))) refl
          (omega arith)
        ∙ int_at-skip true w (nl + al + i) nl (al + i) an (ac ++ (ts ++ dur)) refl (omega arith)
        ∙ int_at-skip true w (al + i) al i ac (ts ++ dur) refl refl in
    let name : utf8_decode (slice 3 nl v) ≡ ok t.actor_name =
      text_at 3 nl t.actor_name (k ∷ nl ∷ al ∷ []) (ac ++ (ts ++ dur)) pn refl refl in
    let action : utf8_decode (slice (3 + nl) al v) ≡ ok t.action =
      text_at (3 + nl) al t.action (k ∷ nl ∷ al ∷ an) (ts ++ dur) pc (omega arith) refl in
    let stamp : int_at true 8 (3 + nl + al) v ≡ ok t.timestamp_ms =
      skip 8 (3 + nl + al) 0 (omega arith) ∙ int_at-pack_int true 8 t.timestamp_ms dur pt in
    let took : int_at true 4 (3 + nl + al + 8) v ≡ ok t.duration_us =
      skip 4 (3 + nl + al + 8) 8 refl
      ∙ int_at-next true 8 8 4 0 t.timestamp_ms dur pt refl
      ∙ int_at-last true 4 t.duration_us pd in
    rw (name, action, stamp, took, ← zk) refl

pub read_trace-pack_trace :
    (t : TraceEntry) {bs : Bytes} → pack_trace t ≡ ok bs → read_trace bs ≡ ok t
unfolding pack_trace
read_trace-pack_trace t {bs} e0 =
    let (an, pn, e1) = >>=-eq-ok (utf8_encode t.actor_name) _ e0 in
    let (ac, pc, e2) = >>=-eq-ok (utf8_encode t.action) _ e1 in
    let (kind, pk, e3) = >>=-eq-ok (pack_int false 1 t.actor_type) _ e2 in
    let (nl, pnl, e4) = >>=-eq-ok (pack_len 1 (length an)) _ e3 in
    let (al, pal, e5) = >>=-eq-ok (pack_len 1 (length ac)) _ e4 in
    let (ts, pt, e6) = >>=-eq-ok (pack_int true 8 t.timestamp_ms) _ e5 in
    let (dur, pd, e7) = >>=-eq-ok (pack_int true 4 t.duration_us) _ e6 in
    let (k, zk, bk) = pack_byte t.actor_type pk in
    subst (λ (v : Bytes). read_trace v ≡ ok t)
      (sym (
          front_byte bk (
            front_byte (pack_len_byte (length an) pnl)
              (front_byte (pack_len_byte (length ac) pal) refl)))
        ∙ ok-injective e7)
      (trace_bytes t k zk pn pc pt pd)
