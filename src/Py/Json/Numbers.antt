-- ===== src/Py/Json/Numbers.antt =====
-- JSON numbers: what `dumps` prints of an int, `loads` reads back.
use aicl.Common.{
  Bool, [], ap, arith, false, negsuc, pos, refl, some, suc, sym, true, zero, ℕ, ℤ, ◌++◌, ◌==◌, ◌||◌,
  ◌∙◌, ◌∷◌, ◌≡◌, ◌≤◌,
}
use aicl.Py.Any.{of_int}
use aicl.Py.Decimal.{
  AllDigits, digits_value, digits_value-show_number, is_digit, show_number, show_number_positive,
  show_number_zero,
}
use aicl.Py.Json.Dump.{dump_int}
use aicl.Py.Json.Load.{after_whole, scan_number, signed_value}
use aicl.Py.Json.Scan.{scan_exponent, scan_fraction, scan_whole, span_digits}
use aicl.Py.Result.{ok}
use aicl.Py.Utf8.{Str}

-- What may stand behind a number: nothing, or a character that no number goes on with.
abbrev pub continues : ℕ → Bool
continues c = is_digit c || (c == 0x2E || (c == 0x65 || c == 0x45))

abbrev pub Ends : Str → Type 0
Ends [] = Unit {0}
Ends (c ∷ s) = continues c ≡ false

span_digits-append :
    (ds rest : Str) → AllDigits ds → Ends rest → span_digits (ds ++ rest) ≡ (ds, rest)
unfolding span_digits
span_digits-append [] [] h e = refl
span_digits-append [] (c ∷ s) h e = ground (arith, e)
span_digits-append (d ∷ ds) rest h e = ground (arith, span_digits-append ds rest h.1 e, h.0)

pub show_number_head :
    (n : ℕ) → (c : ℕ) × (t : Str) × (show_number n ≡ c ∷ t) × (0x30 ≤ c) × (c ≤ 0x39)
show_number_head zero = (0x30, [], show_number_zero, omega arith, omega arith)
show_number_head (suc n) =
    let (c, t, is, low, high, digits) = show_number_positive (suc n) (omega arith) in
    (c, t, is, omega arith, high)

scan_whole-show_number :
    (n : ℕ) (rest : Str)
    → Ends rest
    → scan_whole (show_number n ++ rest) ≡ some (show_number n, rest)
unfolding scan_whole
scan_whole-show_number zero rest e =
    ap (λ (t : Str). scan_whole (t ++ rest)) show_number_zero
    ∙ ap (λ (t : Str). some (t, rest)) (sym show_number_zero)
scan_whole-show_number (suc n) rest e =
    let (c, t, is, low, high, digits) = show_number_positive (suc n) (omega arith) in
    ap (λ (s : Str). scan_whole (s ++ rest)) is
    ∙ ground (arith, span_digits-append t rest digits e)
    ∙ ap (λ (s : Str). some (s, rest)) (sym is)

signed_value_plain : (n : ℕ) → signed_value false n ≡ pos n
signed_value_plain zero = refl
signed_value_plain (suc n) = refl

module _ (float_of : Str → ℕ) where
  after_whole-Ends :
      (minus : Bool) (whole rest : Str)
      → Ends rest
      → after_whole float_of minus (some (whole, rest))
        ≡ ok (of_int (signed_value minus (digits_value 0 whole)), rest)
  unfolding after_whole scan_fraction scan_exponent
  after_whole-Ends minus whole [] e = refl
  after_whole-Ends minus whole (c ∷ s) e = ground (arith, e)

  -- A number without a sign.
  scan_number-digits :
      (n : ℕ) (rest : Str)
      → scan_number float_of (show_number n ++ rest)
        ≡ after_whole float_of false (scan_whole (show_number n ++ rest))
  unfolding scan_number
  scan_number-digits n rest =
      let (c, t, is, low, high) = show_number_head n in
      ap (λ (s : Str). scan_number float_of (s ++ rest)) is
      ∙ ground (arith, low)
      ∙ ap (λ (s : Str). after_whole float_of false (scan_whole (s ++ rest))) (sym is)

  pub scan_number-dump_int :
      (z : ℤ) (rest : Str)
      → Ends rest
      → scan_number float_of (dump_int z ++ rest) ≡ ok (of_int z, rest)
  unfolding scan_number
  scan_number-dump_int (pos n) rest e =
      scan_number-digits n rest
      ∙ ap (after_whole float_of false) (scan_whole-show_number n rest e)
      ∙ after_whole-Ends false (show_number n) rest e
      ∙ ap (λ (m : ℕ). ok (of_int (signed_value false m), rest)) (digits_value-show_number n)
      ∙ ap (λ (z : ℤ). ok (of_int z, rest)) (signed_value_plain n)
  scan_number-dump_int (negsuc n) rest e =
      ap (after_whole float_of true) (scan_whole-show_number (suc n) rest e)
      ∙ after_whole-Ends true (show_number (suc n)) rest e
      ∙ ap (λ (m : ℕ). ok (of_int (signed_value true m), rest)) (digits_value-show_number (suc n))
