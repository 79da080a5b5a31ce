-- ===== src/Py/Utf8/Ascii.antt =====
-- UTF-8: an ASCII byte occurs in an encoding only where the text has that character.
use aicl.Common.{
  All, All-append, [], arith, false, inl, inr, subst, sym, ℕ, ◌++◌, ◌<◌, ◌==◌, ◌∷◌, ◌≡◌, ◌≤◌, ◌⊎◌,
}
use aicl.Py.Result.{>>=-eq-ok, ok, ok-injective}
use aicl.Py.Struct.{Bytes}
use aicl.Py.Utf8.{Str, encode_char, utf8_encode}
use native.Mathlib.Decide.{dec_lt}

split_char : (c : ℕ) {bs : Bytes} → encode_char c ≡ ok bs → (bs ≡ c ∷ []) ⊎ All (λ b. 0x80 ≤ b) bs
unfolding encode_char
split_char c {bs} e = elim (dec_lt c 0x80) [
  | yes ascii ↦ inl (ground arith)
  | no wide ↦ inr (ground arith)
]

encode_char_without :
    (x c : ℕ) {bs : Bytes}
    → x < 0x80
    → (c == x) ≡ false
    → encode_char c ≡ ok bs
    → All (λ b. (b == x) ≡ false) bs
encode_char_without x c {bs} small h e = elim (split_char c e) [
  | inl one ↦ subst (λ (v : Bytes). All (λ b. (b == x) ≡ false) v) (sym one) (h, tt)
  | inr wide ↦ wide_without x bs small wide
]
  where
    wide_without :
        (x : ℕ) (bs : Bytes) → x < 0x80 → All (λ b. 0x80 ≤ b) bs → All (λ b. (b == x) ≡ false) bs
    wide_without x [] small h = tt
    wide_without x (b ∷ bs) small h = (ground arith, wide_without x bs small h.1)

pub utf8_encode_without :
    (x : ℕ) (t : Str) {bs : Bytes}
    → x < 0x80
    → All (λ c. (c == x) ≡ false) t
    → utf8_encode t ≡ ok bs
    → All (λ b. (b == x) ≡ false) bs
unfolding utf8_encode
utf8_encode_without x [] {bs} small h e = let nil : [] ≡ bs = ok-injective e in rw (← nil) tt
utf8_encode_without x (c ∷ t) {bs} small h e =
    let (here, p, e1) = >>=-eq-ok (encode_char c) _ e in
    let (there, q, e2) = >>=-eq-ok (utf8_encode t) _ e1 in
    let whole : here ++ there ≡ bs = ok-injective e2 in
    subst (λ (b : Bytes). All (λ b. (b == x) ≡ false) b) whole
      (All-append (λ b. (b == x) ≡ false) here there (encode_char_without x c small h.0 p)
        (utf8_encode_without x t small h.1 q))
