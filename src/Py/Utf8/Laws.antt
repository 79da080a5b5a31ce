-- ===== src/Py/Utf8/Laws.antt =====
-- UTF-8: decoding undoes encoding, and encoding succeeds exactly on scalar values.
use aicl.Common.{
  All-append, [], ap, arith, false, inl, inr, length, length-append, le→leb, le→ltb, lt→ltb, refl,
  subst, suc, true, zero, ℕ, ◌%◌, ◌*◌, ◌++◌, ◌+◌, ◌-◌, ◌/◌, ◌<◌, ◌∙◌, ◌∷◌, ◌≡◌, ◌≤◌,
}
use aicl.Py.Result.{>>=-eq-ok, ok}
use aicl.Py.Struct.{Bytes, IsByte, IsBytes}
use aicl.Py.Utf8.{
  IsScalar, Str, decode_char, decode_chars, encode_char, is_cont, is_surrogate, tail_four,
  tail_three, tail_two, utf8_decode, utf8_encode,
}
use native.Mathlib.Decide.{dec_lt}
use native.Mathlib.Nat.{le_refl}

encode_char-IsScalar : (c : ℕ) {bs : Bytes} → encode_char c ≡ ok bs → IsScalar c
unfolding encode_char
encode_char-IsScalar c e = ground arith

-- A code point comes out as a lead byte and the bytes from which `decode_char` restores it.
record Sequence (c : ℕ) (bs : Bytes) : Type 0 where
  lead : ℕ
  more : Bytes
  split : bs ≡ lead ∷ more
  bytes : IsBytes (lead ∷ more)
  back : (rest : Bytes) → decode_char lead (more ++ rest) ≡ ok (c, rest)

not_surrogate : (c : ℕ) → IsScalar c → is_surrogate c ≡ false
unfolding is_surrogate
not_surrogate c (inl low) = ground arith
not_surrogate c (inr (high, _)) = ground arith

decode_one : (c : ℕ) (rest : Bytes) → c < 0x80 → decode_char c rest ≡ ok (c, rest)
unfolding decode_char
decode_one c rest h = rw (lt→ltb c 0x80 h)

cont_low : (n : ℕ) → is_cont (0x80 + n % 64) ≡ true
unfolding is_cont
cont_low n =
    rw (le→leb 0x80 (0x80 + n % 64) (omega arith), lt→ltb (0x80 + n % 64) 0xC0 (omega arith))

encode_one : (c : ℕ) → c < 0x80 → encode_char c ≡ ok (c ∷ [])
unfolding encode_char
encode_one c h = rw (lt→ltb c 0x80 h)

encode_two :
    (c : ℕ) → 0x80 ≤ c → c < 0x800 → encode_char c ≡ ok ((0xC0 + c / 64) ∷ (0x80 + c % 64) ∷ [])
unfolding encode_char
encode_two c h k = rw (le→ltb c 0x80 h, lt→ltb c 0x800 k)

encode_three :
    (c : ℕ)
    → 0x800 ≤ c
    → c < 0x10000
    → is_surrogate c ≡ false
    → encode_char c ≡ ok ((0xE0 + c / 4096) ∷ (0x80 + c / 64 % 64) ∷ (0x80 + c % 64) ∷ [])
unfolding encode_char
encode_three c h k n = rw (le→ltb c 0x80 (omega arith), le→ltb c 0x800 h, n, lt→ltb c 0x10000 k)

encode_four :
    (c : ℕ)
    → 0x10000 ≤ c
    → c < 0x110000
    → encode_char c
      ≡ ok (
          (0xF0 + c / 262144)
          ∷ (0x80 + c / 4096 % 64)
          ∷ (0x80 + c / 64 % 64)
          ∷ (0x80 + c % 64)
          ∷ [])
unfolding encode_char
encode_four c h k = rw (
  le→ltb c 0x80 (omega arith),
  le→ltb c 0x800 (omega arith),
  not_surrogate c (inr (omega arith)),
  le→ltb c 0x10000 h,
  lt→ltb c 0x110000 k,
)

decode_two :
    (c : ℕ) (rest : Bytes)
    → 0x80 ≤ c
    → c < 0x800
    → decode_char (0xC0 + c / 64) ((0x80 + c % 64) ∷ rest) ≡ ok (c, rest)
unfolding decode_char tail_two
decode_two c rest h k =
    let value : (0xC0 + c / 64 - 0xC0) * 64 + (0x80 + c % 64 - 0x80) ≡ c = omega arith in
    rw (
      le→ltb (0xC0 + c / 64) 0x80 (omega arith),
      le→ltb (0xC0 + c / 64) 0xC2 (omega arith),
      lt→ltb (0xC0 + c / 64) 0xE0 (omega arith),
      cont_low c,
      value,
    )

decode_three :
    (c : ℕ) (rest : Bytes)
    → 0x800 ≤ c
    → c < 0x10000
    → is_surrogate c ≡ false
    → decode_char (0xE0 + c / 4096) ((0x80 + c / 64 % 64) ∷ (0x80 + c % 64) ∷ rest) ≡ ok (c, rest)
unfolding decode_char tail_three
decode_three c rest h k n =
    let value : (0xE0 + c / 4096 - 0xE0) * 4096
          + (0x80 + c / 64 % 64 - 0x80) * 64
          + (0x80 + c % 64 - 0x80)
        ≡ c =
      omega arith in
    rw (
      le→ltb (0xE0 + c / 4096) 0x80 (omega arith),
      le→ltb (0xE0 + c / 4096) 0xC2 (omega arith),
      le→ltb (0xE0 + c / 4096) 0xE0 (omega arith),
      lt→ltb (0xE0 + c / 4096) 0xF0 (omega arith),
      cont_low c,
      cont_low (c / 64),
      value,
      n,
      le→leb 0x800 c h,
    )

decode_four :
    (c : ℕ) (rest : Bytes)
    → 0x10000 ≤ c
    → c < 0x110000
    → decode_char
        (0xF0 + c / 262144)
        ((0x80 + c / 4096 % 64) ∷ (0x80 + c / 64 % 64) ∷ (0x80 + c % 64) ∷ rest)
      ≡ ok (c, rest)
unfolding decode_char tail_four
decode_four c rest h k =
    let value : (0xF0 + c / 262144 - 0xF0) * 262144
          + (0x80 + c / 4096 % 64 - 0x80) * 4096
          + (0x80 + c / 64 % 64 - 0x80) * 64
          + (0x80 + c % 64 - 0x80)
        ≡ c =
      omega arith in
    rw (
      le→ltb (0xF0 + c / 262144) 0x80 (omega arith),
      le→ltb (0xF0 + c / 262144) 0xC2 (omega arith),
      le→ltb (0xF0 + c / 262144) 0xE0 (omega arith),
      le→ltb (0xF0 + c / 262144) 0xF0 (omega arith),
      lt→ltb (0xF0 + c / 262144) 0xF5 (omega arith),
      cont_low c,
      cont_low (c / 64),
      cont_low (c / 4096),
      value,
      le→leb 0x10000 c h,
      lt→ltb c 0x110000 k,
    )

encode_char-Sequence : (c : ℕ) {bs : Bytes} → encode_char c ≡ ok bs → Sequence c bs
encode_char-Sequence c {bs} e =
    let scalar = encode_char-IsScalar c e in
    elim (dec_lt c 0x80) [
      | yes one ↦ record {
        lead = c;
        more = [];
        split = cc (encode_one c one);
        bytes = omega arith;
        back = λ rest. decode_one c rest one;
      }
      | no a ↦ elim (dec_lt c 0x800) [
        | yes two ↦ record {
          lead = 0xC0 + c / 64;
          more = (0x80 + c % 64) ∷ [];
          split = cc (encode_two c (omega arith) two);
          bytes = omega arith;
          back = λ rest. decode_two c rest (omega arith) two;
        }
        | no b ↦ elim (dec_lt c 0x10000) [
          | yes three ↦ record {
            lead = 0xE0 + c / 4096;
            more = (0x80 + c / 64 % 64) ∷ (0x80 + c % 64) ∷ [];
            split = cc (encode_three c (omega arith) three (not_surrogate c scalar));
            bytes = omega arith;
            back = λ rest. decode_three c rest (omega arith) three (not_surrogate c scalar);
          }
          | no d ↦ record {
            lead = 0xF0 + c / 262144;
            more = (0x80 + c / 4096 % 64) ∷ (0x80 + c / 64 % 64) ∷ (0x80 + c % 64) ∷ [];
            split = cc (encode_four c (omega arith) (omega arith));
            bytes = omega arith;
            back = λ rest. decode_four c rest (omega arith) (omega arith);
          }
        ]
      ]
    ]

utf8_encode-cons :
    (c : ℕ) (s : Str) {bs : Bytes}
    → utf8_encode (c ∷ s) ≡ ok bs
    → (here : Bytes) × (there : Bytes) × (encode_char c ≡ ok here)
      × (utf8_encode s ≡ ok there)
      × (bs ≡ here ++ there)
unfolding utf8_encode
utf8_encode-cons c s e =
    let (here, p, e') = >>=-eq-ok (encode_char c) _ e in
    let (there, q, e'') = >>=-eq-ok (utf8_encode s) _ e' in (here, there, p, q, cc)

decode_chars_step :
    (c : ℕ) (s : Str) (fuel lead : ℕ) (src rest : Bytes)
    → decode_char lead src ≡ ok (c, rest)
    → decode_chars fuel rest ≡ ok s
    → decode_chars (suc fuel) (lead ∷ src) ≡ ok (c ∷ s)
unfolding decode_chars
decode_chars_step c s fuel lead src rest e k = rw (e, k)

decode_chars-encode :
    (s : Str) {bs : Bytes} (fuel : ℕ)
    → utf8_encode s ≡ ok bs
    → length bs ≤ fuel
    → (decode_chars fuel bs ≡ ok s) × IsBytes bs
decode_chars-encode [] {bs} fuel e k =
    let nil : [] ≡ bs = unfold utf8_encode in cc in
    subst (λ (t : Bytes). (decode_chars fuel t ≡ ok []) × IsBytes t) nil
      (unfold decode_chars in (refl, tt))
decode_chars-encode (c ∷ s) {bs} zero e k =
    let (here, there, p, q, whole) = utf8_encode-cons c s e in
    let r = encode_char-Sequence c p in
    absurd (omega (arith, ap length (whole ∙ ap (λ (t : Bytes). t ++ there) r.split)))
decode_chars-encode (c ∷ s) {bs} (suc fuel) e k =
    let (here, there, p, q, whole) = utf8_encode-cons c s e in
    let r = encode_char-Sequence c p in
    let parts : bs ≡ r.lead ∷ (r.more ++ there) = whole ∙ ap (λ (t : Bytes). t ++ there) r.split in
    let room : length there ≤ fuel = omega (arith, ap length parts, length-append r.more there) in
    let (later, bytes) = decode_chars-encode s fuel q room in
    rw parts (
      decode_chars_step c s fuel r.lead (r.more ++ there) there (r.back there) later,
      (r.bytes.0, All-append IsByte r.more there r.bytes.1 bytes),
    )

-- `decode` gives back the text that `encode` succeeded on, and the encoding consists of bytes.
pub utf8_decode-utf8_encode :
    (s : Str) {bs : Bytes} → utf8_encode s ≡ ok bs → (utf8_decode bs ≡ ok s) × IsBytes bs
unfolding utf8_decode
utf8_decode-utf8_encode s {bs} e = decode_chars-encode s (length bs) e (le_refl _)
