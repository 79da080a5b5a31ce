-- ===== src/Py/Decimal.antt =====
-- `str` of a natural number, and the number that ASCII digits stand for.
-- `str` of a number.
use aicl.Common.{
  All, All-append, Bool, [], arith, if◌then◌else◌, leb, ltb, refl, suc, true, zero, ℕ, ◌%◌, ◌&&◌,
  ◌*◌, ◌++◌, ◌+◌, ◌-◌, ◌/◌, ◌<◌, ◌∷◌, ◌≡◌, ◌≤◌,
}
use aicl.Py.Utf8.{Str}
use native.Mathlib.Decide.{dec_lt}

unfoldable pub decimal_of : ℕ → ℕ → Str
decimal_of zero n = []
decimal_of (suc fuel) n =
    let rest = decimal_of fuel (n / 10) in
    if ltb n 10 then (0x30 + n) ∷ [] else rest ++ ((0x30 + n % 10) ∷ [])

unfoldable pub show_number : ℕ → Str
unfolding decimal_of
show_number n = decimal_of (suc n) n

abbrev pub is_digit : ℕ → Bool
is_digit c = leb 0x30 c && leb c 0x39

abbrev pub AllDigits : Str → Type 0
AllDigits s = All (λ (c : ℕ). is_digit c ≡ true) s

unfoldable pub digits_value : ℕ → Str → ℕ
digits_value acc [] = acc
digits_value acc (c ∷ s) = digits_value (acc * 10 + (c - 0x30)) s

digits_value-append :
    (acc d : ℕ) (s : Str) → digits_value acc (s ++ ((0x30 + d) ∷ [])) ≡ digits_value acc s * 10 + d
unfolding digits_value
digits_value-append acc d [] = omega arith
digits_value-append acc d (c ∷ s) = digits_value-append (acc * 10 + (c - 0x30)) d s

digits_value-decimal_of : (fuel n : ℕ) → n < fuel → digits_value 0 (decimal_of fuel n) ≡ n
unfolding digits_value decimal_of
digits_value-decimal_of zero n h = absurd (omega arith)
digits_value-decimal_of (suc fuel) n h = elim (dec_lt n 10) [
  | yes lt ↦ ground arith
  | no ge ↦ ground (
    arith,
    digits_value-append 0 (n % 10) (decimal_of fuel (n / 10)),
    digits_value-decimal_of fuel (n / 10) (omega arith),
  )
]

-- The digits of a number above zero start with another digit than 0.
decimal_of_positive :
    (fuel n : ℕ)
    → n < fuel
    → 1 ≤ n
    → (c : ℕ) × (t : Str) × (decimal_of fuel n ≡ c ∷ t) × (0x31 ≤ c) × (c ≤ 0x39) × AllDigits t
unfolding decimal_of
decimal_of_positive zero n h k = absurd (omega arith)
decimal_of_positive (suc fuel) n h k = elim (dec_lt n 10) [
  | yes lt ↦ (0x30 + n, [], ground arith, omega arith, omega arith, tt)
  | no ge ↦
      let (c, t, is, low, high, rest) =
        decimal_of_positive fuel (n / 10) (omega arith) (omega arith) in
      (
        c,
        t ++ ((0x30 + n % 10) ∷ []),
        ground (arith, is),
        low,
        high,
        All-append (λ (c : ℕ). is_digit c ≡ true) t ((0x30 + n % 10) ∷ []) rest (ground arith, tt),
      )
]

pub digits_value-show_number : (n : ℕ) → digits_value 0 (show_number n) ≡ n
unfolding show_number
digits_value-show_number n = digits_value-decimal_of (suc n) n (omega arith)

pub show_number_positive :
    (n : ℕ)
    → 1 ≤ n
    → (c : ℕ) × (t : Str) × (show_number n ≡ c ∷ t) × (0x31 ≤ c) × (c ≤ 0x39) × AllDigits t
unfolding show_number
show_number_positive n k = decimal_of_positive (suc n) n (omega arith) k

pub show_number_zero : show_number 0 ≡ 0x30 ∷ []
unfolding show_number decimal_of
show_number_zero = refl
