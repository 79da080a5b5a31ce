-- ===== src/Bin/Access/Errors.antt =====
-- aicl/bin/codec_packet.py and aicl/bin/codec_view.py: error infos are read back.
use aicl.Common.{
  Option, [], ap, append_assoc, arith, drop-append, false, if◌then◌else◌, length, length-append,
  le→leb, le→ltb, none, refl, some, subst, suc, sym, take, take_all, zero, ℕ, ◌++◌, ◌+◌, ◌<◌, ◌==◌,
  ◌^◌, ◌∙◌, ◌∷◌, ◌≡◌, ◌≢◌, ◌≤◌,
}
use aicl.Bin.Access.{byte_at, int_at}
use aicl.Bin.Access.Fixed.{front_byte, int_at-next, int_at-pack_int}
use aicl.Bin.Access.Infos.{read_error, read_error_texts}
use aicl.Bin.Access.Texts.{text_at}
use aicl.Bin.Packet.{or_empty, pack_error}
use aicl.Bin.Types.{ErrorInfo, pack_len}
use aicl.Bin.Types.Laws.{pack_len_byte}
use aicl.Py.Ints.{pack_int}
use aicl.Py.Ints.Laws.{unpack_int-pack_int}
use aicl.Py.Result.{>>=-eq-ok, map_ok, ok, ok-injective}
use aicl.Py.Struct.{Bytes, be, length-be, slice, unpack_at, unpack_at-be, unpack_at-skip}
use aicl.Py.Utf8.{Str, utf8_decode, utf8_encode}
use aicl.Py.Utf8.Laws.{utf8_decode-utf8_encode}
use native.Mathlib.Decide.{dec_lt}

-- A text without bytes is empty.
pub utf8_encode-nil : (s : Str) → utf8_encode s ≡ ok [] → s ≡ []
unfolding utf8_decode
utf8_encode-nil s e = ok-injective (sym (utf8_decode-utf8_encode s e).0)

-- The details that a sender can tell from no details.
abbrev pub IsDetails : Option Str → Type 0
IsDetails none = Unit {0}
IsDetails (some s) = s ≢ []

details_back :
    (d : Option Str) (xs : Bytes) {db : Bytes}
    → IsDetails d
    → utf8_encode (or_empty d) ≡ ok db
    → (if length db == 0
        then ok none
        else map_ok some (utf8_decode (slice (length xs) (length db) (xs ++ db))))
      ≡ ok d
unfolding utf8_encode
details_back none xs {db} h e = let nil : [] ≡ db = ok-injective e in rw (← nil) refl
details_back (some s) xs {db = []} h e = absurd (h (utf8_encode-nil s e))
details_back (some s) xs {db = b ∷ db} h e =
    let read : utf8_decode (slice (length xs) (length (b ∷ db)) (xs ++ (b ∷ db))) ≡ ok s =
      ap (λ (u : Bytes). utf8_decode (take (length (b ∷ db)) u))
        (drop-append (length xs) xs (b ∷ db) refl)
      ∙ ap utf8_decode (take_all (length (b ∷ db)) (b ∷ db) refl)
      ∙ (utf8_decode-utf8_encode s e).0 in
    rw read (ground arith)

byte_at-append : (k n : ℕ) (xs ys : Bytes) → length xs ≡ k → byte_at k (xs ++ (n ∷ ys)) ≡ ok n
byte_at-append zero n [] ys h = refl
byte_at-append zero n (x ∷ xs) ys h = absurd (omega arith)
byte_at-append (suc k) n [] ys h = absurd (omega arith)
byte_at-append (suc k) n (x ∷ xs) ys h = byte_at-append k n xs ys (omega arith)

-- The message and the details behind five bytes.
error_texts :
    (e : ErrorInfo) (front : Bytes) {mb db : Bytes}
    → IsDetails e.details
    → length front ≡ 5
    → utf8_encode e.message ≡ ok mb
    → utf8_encode (or_empty e.details) ≡ ok db
    → length db < 2 ^ 16
    → read_error_texts (length mb) (front ++ (mb ++ (be 2 (length db) ++ db)))
      ≡ ok (e.message, e.details)
unfolding read_error_texts
error_texts e front {mb} {db} some_text size pm pd small =
    let dl : Bytes = be 2 (length db) in
    let v : Bytes = front ++ (mb ++ (dl ++ db)) in
    let message : utf8_decode (slice 5 (length mb) v) ≡ ok e.message =
      text_at 5 (length mb) e.message front (dl ++ db) pm size refl in
    let long : length v ≡ 5 + length mb + 2 + length db = omega (
      arith,
      length-append front (mb ++ (dl ++ db)),
      length-append mb (dl ++ db),
      length-append dl db,
      length-be 2 (length db),
    ) in
    let count : unpack_at 2 (5 + length mb) v ≡ ok (length db) =
      unpack_at-skip 2 (5 + length mb) 5 (length mb) front (mb ++ (dl ++ db)) size refl
      ∙ unpack_at-skip 2 (length mb) (length mb) 0 mb (dl ++ db) refl (omega arith)
      ∙ unpack_at-be 2 (length db) db small in
    let whole : v ≡ (front ++ (mb ++ dl)) ++ db =
      ap (λ (u : Bytes). front ++ u) (sym (append_assoc mb dl db))
      ∙ sym (append_assoc front (mb ++ dl) db) in
    let offset : length (front ++ (mb ++ dl)) ≡ 5 + length mb + 2 =
      omega (arith, length-append front (mb ++ dl), length-append mb dl, length-be 2 (length db)) in
    let details = details_back e.details (front ++ (mb ++ dl)) some_text pd in
    rw (
      message,
      le→leb (5 + length mb + 2) (length v) (omega arith),
      count,
      whole,
      ← offset,
      details,
    )

error_bytes :
    (e : ErrorInfo) {code sev mb db : Bytes}
    → IsDetails e.details
    → pack_int false 2 e.error_code ≡ ok code
    → pack_int false 2 e.severity ≡ ok sev
    → utf8_encode e.message ≡ ok mb
    → utf8_encode (or_empty e.details) ≡ ok db
    → length db < 2 ^ 16
    → let v : Bytes = code ++ (sev ++ (length mb ∷ (mb ++ (be 2 (length db) ++ db)))) in
      (read_error v ≡ ok (some e)) × (7 ≤ length v)
unfolding read_error
error_bytes e {code} {sev} {mb} {db} some_text pc ps pm pd small =
    let (_, size_c, _) = unpack_int-pack_int false 2 e.error_code pc in
    let (_, size_s, _) = unpack_int-pack_int false 2 e.severity ps in
    let tail : Bytes = mb ++ (be 2 (length db) ++ db) in
    let v : Bytes = code ++ (sev ++ (length mb ∷ tail)) in
    let front : Bytes = code ++ (sev ++ (length mb ∷ [])) in
    let front_size : length front ≡ 5 =
      omega
        (arith, length-append code (sev ++ (length mb ∷ [])), length-append sev (length mb ∷ [])) in
    let whole : v ≡ front ++ tail =
      ap (λ (u : Bytes). code ++ u) (sym (append_assoc sev (length mb ∷ []) tail))
      ∙ sym (append_assoc code (sev ++ (length mb ∷ [])) tail) in
    let long : length v ≡ 7 + length mb + length db = omega (
      arith,
      ap length whole,
      length-append front tail,
      length-append mb (be 2 (length db) ++ db),
      length-append (be 2 (length db)) db,
      length-be 2 (length db),
    ) in
    let severity : int_at false 2 2 v ≡ ok e.severity =
      int_at-next false 2 2 2 0 e.error_code (sev ++ (length mb ∷ tail)) pc refl
      ∙ int_at-pack_int false 2 e.severity (length mb ∷ tail) ps in
    let ml : byte_at 4 v ≡ ok (length mb) =
      ap (byte_at 4) (sym (append_assoc code sev (length mb ∷ tail)))
      ∙ byte_at-append 4 (length mb) (code ++ sev) tail (omega (arith, length-append code sev)) in
    let texts : read_error_texts (length mb) v ≡ ok (e.message, e.details) =
      ap (read_error_texts (length mb)) whole
      ∙ error_texts e front some_text front_size pm pd small in
    (
      rw
          (
            int_at-pack_int false 2 e.error_code (sev ++ (length mb ∷ tail)) pc,
            severity,
            ml,
            le→ltb (length v) (5 + length mb) (omega arith),
            texts,
          )
          refl,
      omega arith,
    )

pub pack_len-be : (w n : ℕ) {bs : Bytes} → pack_len w n ≡ ok bs → (n < 256 ^ w) × (bs ≡ be w n)
unfolding pack_int
pack_len-be w n e = elim (dec_lt n (256 ^ w)) [
  | yes small ↦ (small, ground arith)
  | no big ↦ ground arith
]

pub read_error-pack_error :
    (e : ErrorInfo) {bs : Bytes}
    → IsDetails e.details
    → pack_error e ≡ ok bs
    → (read_error bs ≡ ok (some e)) × (7 ≤ length bs)
unfolding pack_error
read_error-pack_error e {bs} some_text e0 =
    let (mb, pm, e1) = >>=-eq-ok (utf8_encode e.message) _ e0 in
    let (db, pd, e2) = >>=-eq-ok (utf8_encode (or_empty e.details)) _ e1 in
    let (code, pc, e3) = >>=-eq-ok (pack_int false 2 e.error_code) _ e2 in
    let (sev, ps, e4) = >>=-eq-ok (pack_int false 2 e.severity) _ e3 in
    let (ml, pml, e5) = >>=-eq-ok (pack_len 1 (length mb)) _ e4 in
    let (dl, pdl, e6) = >>=-eq-ok (pack_len 2 (length db)) _ e5 in
    let (small, is) = pack_len-be 2 (length db) pdl in
    let tail : ml ++ (mb ++ (dl ++ db)) ≡ length mb ∷ (mb ++ (be 2 (length db) ++ db)) =
      front_byte (pack_len_byte (length mb) pml) (ap (λ (u : Bytes). mb ++ (u ++ db)) is) in
    subst (λ (v : Bytes). (read_error v ≡ ok (some e)) × (7 ≤ length v))
      (ap (λ (u : Bytes). code ++ (sev ++ u)) (sym tail) ∙ ok-injective e6)
      (error_bytes e some_text pc ps pm pd small)
