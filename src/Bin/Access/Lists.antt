-- ===== src/Bin/Access/Lists.antt =====
-- aicl/bin/codec_packet.py and aicl/bin/codec_view.py: lists of texts, and bare operands, are read
-- back.
use aicl.Common.{All, List, [], ap, arith, false, refl, sym, ◌++◌, ◌==◌, ◌∙◌, ◌∷◌, ◌≡◌, ◌≢◌}
use aicl.Bin.Access.{decode_texts, split_commas}
use aicl.Bin.Access.Errors.{utf8_encode-nil}
use aicl.Bin.Packet.{join_texts}
use aicl.Py.Result.{>>=-eq-ok, ok, ok-injective}
use aicl.Py.Struct.{Bytes}
use aicl.Py.Utf8.{Str, utf8_encode}
use aicl.Py.Utf8.Ascii.{utf8_encode_without}
use aicl.Py.Utf8.Laws.{utf8_decode-utf8_encode}

-- A text that survives the joining by commas: it is not empty and has no comma.
abbrev pub IsPlain : Str → Type 0
IsPlain t = (t ≢ []) × All (λ c. (c == 0x2C) ≡ false) t

abbrev NoComma : Bytes → Type 0
NoComma bs = All (λ b. (b == 0x2C) ≡ false) bs

split_commas_last : (bs : Bytes) → NoComma bs → split_commas bs ≡ bs ∷ []
unfolding split_commas
split_commas_last [] h = refl
split_commas_last (b ∷ bs) h = rw (h.0, split_commas_last bs h.1) refl

split_commas_more :
    (bs rest : Bytes) → NoComma bs → split_commas (bs ++ (0x2C ∷ rest)) ≡ bs ∷ split_commas rest
unfolding split_commas
split_commas_more [] rest h = refl
split_commas_more (b ∷ bs) rest h = rw (h.0, split_commas_more bs rest h.1) refl

decode_texts_cons :
    (t : Str) (bs : Bytes) (ps : List Bytes) {ts : List Str}
    → t ≢ []
    → utf8_encode t ≡ ok bs
    → decode_texts ps ≡ ok ts
    → decode_texts (bs ∷ ps) ≡ ok (t ∷ ts)
unfolding decode_texts
decode_texts_cons t [] ps some_text e h = absurd (some_text (utf8_encode-nil t e))
decode_texts_cons t (b ∷ bs) ps some_text e h = rw ((utf8_decode-utf8_encode t e).0, h) refl

pub split_commas-join_texts :
    (ts : List Str) {bs : Bytes}
    → All IsPlain ts
    → ts ≢ []
    → join_texts ts ≡ ok bs
    → decode_texts (split_commas bs) ≡ ok ts
unfolding join_texts
split_commas-join_texts [] h n e = absurd (n refl)
split_commas-join_texts (t ∷ []) {bs} h n e =
    ap decode_texts (split_commas_last bs (utf8_encode_without 0x2C t (omega arith) h.0.1 e))
    ∙ decode_texts_cons t bs [] h.0.0 e (unfold decode_texts in refl)
split_commas-join_texts (t ∷ u ∷ ts) {bs} h n e =
    let (here, p, e1) = >>=-eq-ok (utf8_encode t) _ e in
    let (there, q, e2) = >>=-eq-ok (join_texts (u ∷ ts)) _ e1 in
    let whole : here ++ (0x2C ∷ there) ≡ bs = ok-injective e2 in
    ap (λ (b : Bytes). decode_texts (split_commas b)) (sym whole)
    ∙ ap decode_texts
        (split_commas_more here there (utf8_encode_without 0x2C t (omega arith) h.0.1 p))
    ∙ decode_texts_cons t here (split_commas there) h.0.0 p
        (split_commas-join_texts (u ∷ ts) h.1 (λ x. cc) q)
