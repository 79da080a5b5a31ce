-- ===== src/Transport/Address/Decimal.antt =====
-- aicl/transport/address.py: the decimal digits of a port, printed and read.
use aicl.Common.{
  All, All-append, Option, Option-cases, [], arith, false, inl, inr, length, length-append, some,
  suc, zero, ℕ, ◌%◌, ◌*◌, ◌++◌, ◌+◌, ◌/◌, ◌<◌, ◌==◌, ◌^◌, ◌∷◌, ◌≡◌, ◌≤◌,
}
use aicl.Py.Decimal.{decimal_of, show_number}
use aicl.Py.Utf8.{Str}
use aicl.Transport.Address.{read_digits}
use native.Mathlib.Decide.{dec_lt}
use native.Mathlib.Nat.{pow-suc}

-- The character does not occur in the text.
abbrev pub Lacks : ℕ → Str → Type 0
Lacks x s = All (λ (c : ℕ). (c == x) ≡ false) s

module _ (decimal : ℕ → Option ℕ) (ascii : (d : ℕ) → d < 10 → decimal (0x30 + d) ≡ some d) where
  read_digits-append :
      (acc m d : ℕ) (s : Str)
      → d < 10
      → read_digits decimal acc s ≡ some m
      → read_digits decimal acc (s ++ ((0x30 + d) ∷ [])) ≡ some (m * 10 + d)
  unfolding read_digits
  read_digits-append acc m d [] h e = ground (arith, ascii d h)
  read_digits-append acc m d (c ∷ s) h e = elim (Option-cases (decimal c)) [
    | inl gone ↦ ground (arith, gone)
    | inr (k, is) ↦ ground (arith, is, read_digits-append (acc * 10 + k) m d s h)
  ]

  -- The digits of a number give the number again.
  pub read_digits-decimal_of :
      (fuel n : ℕ) → n < fuel → read_digits decimal 0 (decimal_of fuel n) ≡ some n
  unfolding read_digits decimal_of
  read_digits-decimal_of zero n h = absurd (omega arith)
  read_digits-decimal_of (suc fuel) n h = elim (dec_lt n 10) [
    | yes lt ↦ ground (arith, ascii n lt)
    | no ge ↦ ground (
      arith,
      read_digits-append 0 (n / 10) (n % 10) (decimal_of fuel (n / 10)) (omega arith)
          (read_digits-decimal_of fuel (n / 10) (omega arith)),
    )
  ]

pub length-decimal_of : (fuel k n : ℕ) → n < 10 ^ suc k → length (decimal_of fuel n) ≤ suc k
unfolding decimal_of
length-decimal_of zero k n h = omega arith
length-decimal_of (suc fuel) zero n h = ground arith
length-decimal_of (suc fuel) (suc k) n h = ground (
  arith,
  length-decimal_of fuel k (n / 10) (omega (arith, pow-suc 10 (suc k))),
  length-append (decimal_of fuel (n / 10)) ((0x30 + n % 10) ∷ []),
)

pub decimal_of_nonempty : (fuel n : ℕ) → n < fuel → 1 ≤ length (decimal_of fuel n)
unfolding decimal_of
decimal_of_nonempty zero n h = absurd (omega arith)
decimal_of_nonempty (suc fuel) n h =
    ground (arith, length-append (decimal_of fuel (n / 10)) ((0x30 + n % 10) ∷ []))

decimal_of_none : (x n : ℕ) → Lacks x (decimal_of zero n)
unfolding decimal_of
decimal_of_none x n = tt

decimal_of_last : (fuel n : ℕ) → n < 10 → decimal_of (suc fuel) n ≡ (0x30 + n) ∷ []
unfolding decimal_of
decimal_of_last fuel n h = ground arith

decimal_of_more :
    (fuel n : ℕ)
    → 10 ≤ n
    → decimal_of (suc fuel) n ≡ decimal_of fuel (n / 10) ++ ((0x30 + n % 10) ∷ [])
unfolding decimal_of
decimal_of_more fuel n h = ground arith

-- The digits are none of the characters below "0".
pub decimal_of-Lacks : (x fuel n : ℕ) → x < 0x30 → Lacks x (decimal_of fuel n)
decimal_of-Lacks x zero n h = decimal_of_none x n
decimal_of-Lacks x (suc fuel) n h = elim (dec_lt n 10) [
  | yes lt ↦ rw (decimal_of_last fuel n lt) (ground arith, tt)
  | no ge ↦ rw (decimal_of_more fuel n (omega arith)) (
      All-append (λ (c : ℕ). (c == x) ≡ false) (decimal_of fuel (n / 10)) ((0x30 + n % 10) ∷ [])
        (decimal_of-Lacks x fuel (n / 10) h) (ground arith, tt))
]

-- What `str` of a number prints.
pub show_number-Lacks : (x n : ℕ) → x < 0x30 → Lacks x (show_number n)
unfolding show_number
show_number-Lacks x n h = decimal_of-Lacks x (suc n) n h

pub show_number_nonempty : (n : ℕ) → 1 ≤ length (show_number n)
unfolding show_number
show_number_nonempty n = decimal_of_nonempty (suc n) n (omega arith)

pub length-show_number : (n : ℕ) → n < 2 ^ 16 → length (show_number n) ≤ 5
unfolding show_number
length-show_number n h = length-decimal_of (suc n) 4 n (omega arith)

pub read_digits-show_number :
    (decimal : ℕ → Option ℕ)
    → ((d : ℕ) → d < 10 → decimal (0x30 + d) ≡ some d)
    → (n : ℕ) → read_digits decimal 0 (show_number n) ≡ some n
unfolding show_number
read_digits-show_number decimal ascii n =
    read_digits-decimal_of decimal ascii (suc n) n (omega arith)
