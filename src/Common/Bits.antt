-- ===== src/Common/Bits.antt =====
-- `&` and `|` of Python integers in plain arithmetic: the digit laws of the native operations, then
-- masks, single bits and disjoint fields at every width.
use Prim.Native.Nat.{
  ℕ, zero, suc, ◌+◌, ◌*◌, ◌/◌, ◌%◌, ◌^◌, ◌-◌, ◌≤◌, ◌<◌, min, max, bit_and, bit_or, digits,
  bit_and-bitwise, bit_or-bitwise,
}
use mathlib.Core.Path.{◌≡◌, refl, ap, ◌∙◌}
use native.Mathlib.Nat.{
  pow-suc, one-le-pow, add-mul-mod_self_right, mod-eq_of_lt, div-add-mod, mod-lt,
}
use native.Mathlib.Omega.{arith}

-- The digit recursion does not depend on its fuel.
digits_fuel :
    (z : ℕ → ℕ) (f : ℕ → ℕ → ℕ) (n m a b : ℕ) → a ≤ n → a ≤ m → digits z f n a b ≡ digits z f m a b
digits_fuel z f zero zero a b h k = refl
digits_fuel z f zero (suc m) zero b h k = refl
digits_fuel z f zero (suc m) (suc a) b h k = absurd (omega arith)
digits_fuel z f (suc n) zero zero b h k = refl
digits_fuel z f (suc n) zero (suc a) b h k = absurd (omega arith)
digits_fuel z f (suc n) (suc m) zero b h k = refl
digits_fuel z f (suc n) (suc m) (suc a) b h k =
    ap (λ (t : ℕ). t * 2 + f (suc a % 2) (b % 2))
      (digits_fuel z f n m (suc a / 2) (b / 2) (omega arith) (omega arith))

pub bit_or_digit : (a b : ℕ) → bit_or a b ≡ bit_or (a / 2) (b / 2) * 2 + max (a % 2) (b % 2)
bit_or_digit zero b = omega (arith, bit_or-bitwise 0 b, bit_or-bitwise 0 (b / 2))
bit_or_digit (suc a) b = omega (
  arith,
  bit_or-bitwise (suc a) b,
  bit_or-bitwise (suc a / 2) (b / 2),
  digits_fuel (λ y. y) max a (suc a / 2) (suc a / 2) (b / 2) (omega arith) (omega arith),
)

pub bit_and_digit : (a b : ℕ) → bit_and a b ≡ bit_and (a / 2) (b / 2) * 2 + min (a % 2) (b % 2)
bit_and_digit zero b = omega (arith, bit_and-bitwise 0 b, bit_and-bitwise 0 (b / 2))
bit_and_digit (suc a) b = omega (
  arith,
  bit_and-bitwise (suc a) b,
  bit_and-bitwise (suc a / 2) (b / 2),
  digits_fuel (λ _. 0) min a (suc a / 2) (suc a / 2) (b / 2) (omega arith) (omega arith),
)

and_zero_below : (n a : ℕ) → a ≤ n → bit_and a 0 ≡ 0
and_zero_below n zero h = refl
and_zero_below zero (suc a) h = absurd (omega arith)
and_zero_below (suc n) (suc a) h =
    omega (arith, bit_and_digit (suc a) 0, and_zero_below n (suc a / 2) (omega arith))

pub bit_and-zero : (a : ℕ) → bit_and a 0 ≡ 0
bit_and-zero a = and_zero_below a a (omega arith)

or_zero_below : (n a : ℕ) → a ≤ n → bit_or a 0 ≡ a
or_zero_below n zero h = refl
or_zero_below zero (suc a) h = absurd (omega arith)
or_zero_below (suc n) (suc a) h =
    omega (arith, bit_or_digit (suc a) 0, or_zero_below n (suc a / 2) (omega arith))

pub bit_or-zero : (a : ℕ) → bit_or a 0 ≡ a
bit_or-zero a = or_zero_below a a (omega arith)

-- Bit `k` of a number.
abbrev pub bit : ℕ → ℕ → ℕ
bit zero a = a % 2
bit (suc k) a = bit k (a / 2)

pub bit-bit_or : (k a b : ℕ) → bit k (bit_or a b) ≡ max (bit k a) (bit k b)
bit-bit_or zero a b = omega (arith, bit_or_digit a b)
bit-bit_or (suc k) a b = ap (bit k) (omega (arith, bit_or_digit a b)) ∙ bit-bit_or k (a / 2) (b / 2)

-- `a & (1 << k)`.
pub bit_and_single : (k a : ℕ) → bit_and a (2 ^ k) ≡ bit k a * 2 ^ k
bit_and_single zero a = omega (arith, bit_and_digit a 1, bit_and-zero (a / 2))
bit_and_single (suc k) a =
    let p : ℕ = 2 ^ k in
    let half : 2 ^ suc k / 2 ≡ p = omega (arith, pow-suc 2 k) in
    let down : bit_and (a / 2) (2 ^ suc k / 2) ≡ bit k (a / 2) * p =
      rw half (bit_and_single k (a / 2)) in
    let up : bit k (a / 2) * 2 ^ suc k ≡ bit k (a / 2) * (p * 2) =
      ap (λ (t : ℕ). bit k (a / 2) * t) (pow-suc 2 k) in
    omega (arith, pow-suc 2 k, bit_and_digit a (2 ^ suc k), down, up)

pub bit-lt : (k a : ℕ) → bit k a < 2
bit-lt zero a = omega arith
bit-lt (suc k) a = bit-lt k (a / 2)

-- The lowest binary digit of a remainder.
mod_digit : (k a : ℕ) → a % 2 ^ suc k ≡ a / 2 % 2 ^ k * 2 + a % 2
mod_digit k a =
    let p : ℕ = 2 ^ k in
    let q : ℕ = a / 2 / p in
    let low : ℕ = a / 2 % p * 2 + a % 2 in
    let whole : a ≡ low + q * 2 ^ suc k =
      omega (arith, div-add-mod (a / 2) p, ap (λ (t : ℕ). q * t) (pow-suc 2 k)) in
    let fits : low < 2 ^ suc k =
      omega (arith, pow-suc 2 k, mod-lt (a / 2) (one-le-pow k 2 (omega arith))) in
    ap (λ (t : ℕ). t % 2 ^ suc k) whole
    ∙ add-mul-mod_self_right low q (2 ^ suc k)
    ∙ mod-eq_of_lt fits

-- `a & ((1 << k) - 1)` is the remainder.
pub bit_and_mask : (k a : ℕ) → bit_and a (2 ^ k - 1) ≡ a % 2 ^ k
bit_and_mask zero a = omega (arith, bit_and-zero a)
bit_and_mask (suc k) a = ground (
  arith,
  pow-suc 2 k,
  one-le-pow k 2,
  bit_and_digit a (2 ^ suc k - 1),
  bit_and_mask k (a / 2),
  mod_digit k a,
)

-- `r | (q << k)` is a sum when `r` fits `k` bits.
pub bit_or_field : (k q r : ℕ) → r < 2 ^ k → bit_or r (q * 2 ^ k) ≡ r + q * 2 ^ k
bit_or_field zero q zero h = omega (arith, bit_or-bitwise 0 (q * 1))
bit_or_field zero q (suc r) h = absurd (omega arith)
bit_or_field (suc k) q r h =
    let double : q * 2 ^ suc k ≡ 2 * (q * 2 ^ k) =
      omega (arith, ap (λ (t : ℕ). q * t) (pow-suc 2 k)) in
    ground (arith, pow-suc 2 k, bit_or_digit r (q * 2 ^ suc k), bit_or_field k q (r / 2))

-- The same with the field in front.
pub bit_or_high : (k q r : ℕ) → r < 2 ^ k → bit_or (q * 2 ^ k) r ≡ q * 2 ^ k + r
bit_or_high zero q zero h = omega (arith, bit_or-zero (q * 1))
bit_or_high zero q (suc r) h = absurd (omega arith)
bit_or_high (suc k) q r h =
    let double : q * 2 ^ suc k ≡ 2 * (q * 2 ^ k) =
      omega (arith, ap (λ (t : ℕ). q * t) (pow-suc 2 k)) in
    ground (arith, pow-suc 2 k, bit_or_digit (q * 2 ^ suc k) r, bit_or_high k q (r / 2))
