-- ===== src/Py/Utf8/Total.antt =====
-- UTF-8 decoding ends on every input: its loop never runs out of fuel.
use aicl.Common.{[], arith, length, ltb, suc, zero, ℕ, ◌∷◌, ◌≤◌}
use aicl.Py.Result.Ensures.{Ensures, Ensures-bind, Ensures-if, holds, unicode_raises}
use aicl.Py.Struct.{Bytes}
use aicl.Py.Utf8.{decode_char, decode_chars, is_cont, tail_four, tail_three, tail_two, utf8_decode}
use native.Mathlib.Nat.{le_refl}

tail_two-Ensures : (b : ℕ) (src : Bytes) → Ensures (λ r. length r.1 ≤ length src) (tail_two b src)
unfolding tail_two
tail_two-Ensures b [] = unicode_raises
tail_two-Ensures b (c ∷ src) = Ensures-if (is_cont c) (holds (omega arith)) (unicode_raises)

tail_three-Ensures :
    (b : ℕ) (src : Bytes) → Ensures (λ r. length r.1 ≤ length src) (tail_three b src)
unfolding tail_three
tail_three-Ensures b [] = unicode_raises
tail_three-Ensures b (c ∷ []) = unicode_raises
tail_three-Ensures b (c ∷ d ∷ src) = Ensures-if _ (holds (omega arith)) (unicode_raises)

tail_four-Ensures : (b : ℕ) (src : Bytes) → Ensures (λ r. length r.1 ≤ length src) (tail_four b src)
unfolding tail_four
tail_four-Ensures b [] = unicode_raises
tail_four-Ensures b (c ∷ []) = unicode_raises
tail_four-Ensures b (c ∷ d ∷ []) = unicode_raises
tail_four-Ensures b (c ∷ d ∷ e ∷ src) = Ensures-if _ (holds (omega arith)) (unicode_raises)

decode_char-Ensures :
    (b : ℕ) (src : Bytes) → Ensures (λ r. length r.1 ≤ length src) (decode_char b src)
unfolding decode_char
decode_char-Ensures b src = Ensures-if (ltb b 0x80) (holds (omega arith)) (
    Ensures-if (ltb b 0xC2) (unicode_raises) (
      Ensures-if (ltb b 0xE0) (tail_two-Ensures b src) (
        Ensures-if (ltb b 0xF0) (tail_three-Ensures b src)
          (Ensures-if (ltb b 0xF5) (tail_four-Ensures b src) (unicode_raises)))))

decode_chars-Ensures :
    (fuel : ℕ) (src : Bytes) → length src ≤ fuel → Ensures (λ _. Unit {0}) (decode_chars fuel src)
unfolding decode_chars
decode_chars-Ensures zero [] h = holds tt
decode_chars-Ensures (suc fuel) [] h = holds tt
decode_chars-Ensures zero (b ∷ src) h = absurd (omega arith)
decode_chars-Ensures (suc fuel) (b ∷ src) h =
    Ensures-bind (decode_char-Ensures b src)
      λ (c, rest) le. Ensures-bind (decode_chars-Ensures fuel rest (omega arith)) λ s _. holds tt

pub utf8_decode-Ensures : (src : Bytes) → Ensures (λ _. Unit {0}) (utf8_decode src)
unfolding utf8_decode
utf8_decode-Ensures src = decode_chars-Ensures (length src) src (le_refl _)
