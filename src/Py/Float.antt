-- ===== src/Py/Float.antt =====
-- A Python float is modelled by the 64 bits of its IEEE double. `struct` writes it as those eight
-- bytes (`>d`), or rounds it to a single (`>f`).
use aicl.Common.{
  if◌then◌else◌, leb, ltb, max, negsuc, pos, suc, zero, ℕ, ℤ, ◌%◌, ◌&&◌, ◌*◌, ◌+◌, ◌-◌, ◌/◌, ◌==◌,
  ◌^◌, ◌||◌,
}
use aicl.Py.Result.{Result, err, ok, overflow_error, value_error}

-- The bits of 1.0.
abbrev pub one_bits : ℕ
one_bits = 0x3FF0_0000_0000_0000

-- x / 2 ^ k, rounded to the nearest, ties to even.
pub round_shift : ℕ → ℕ → ℕ
round_shift x k =
    let q = x / 2 ^ k in
    let twice = 2 * (x % 2 ^ k) in
    if ltb (2 ^ k) twice || (twice == 2 ^ k && q % 2 == 1) then q + 1 else q

-- The bits of the nearest single; OverflowError where a finite double rounds to infinity.
unfoldable pub narrow : ℕ → Result ℕ
unfolding round_shift
narrow d =
    let sign = d / 2 ^ 63 % 2 * 2 ^ 31 in
    let e = d / 2 ^ 52 % 2048 in
    let m = d % 2 ^ 52 in
    let size =
      if ltb e 897
      then round_shift (if e == 0 then m else 2 ^ 52 + m) (29 + 897 - max e 1)
      else (e - 897) * 2 ^ 23 + round_shift (2 ^ 52 + m) 29 in
    if e == 2047
    then ok (sign + 255 * 2 ^ 23 + (if m == 0 then 0 else 2 ^ 22 + m / 2 ^ 29 % 2 ^ 22))
    else if ltb size (255 * 2 ^ 23)
    then ok (sign + size)
    else err overflow_error

-- The position of the highest one of `m` among the `k` lowest bits.
top_bit : ℕ → ℕ → ℕ
top_bit zero m = 0
top_bit (suc k) m = let rest = top_bit k m in if leb (2 ^ k) m then k else rest

-- The bits of the double with the value of a single.
unfoldable pub widen : ℕ → ℕ
unfolding top_bit
widen s =
    let sign = s / 2 ^ 31 % 2 * 2 ^ 63 in
    let e = s / 2 ^ 23 % 256 in
    let m = s % 2 ^ 23 in
    let k = top_bit 23 m in
    if e == 255
    then sign + 2047 * 2 ^ 52 + (if m == 0 then 0 else 2 ^ 51 + m % 2 ^ 22 * 2 ^ 29)
    else if ltb 0 e
    then sign + (e + 896) * 2 ^ 52 + m * 2 ^ 29
    else if m == 0
    then sign
    else sign + (k + 874) * 2 ^ 52 + (m - 2 ^ k) * 2 ^ (52 - k)

-- `int(f * 1000)` of a float: the product rounded to 53 bits, then cut to an integer.
pub thousandths_size : ℕ → ℕ
unfolding round_shift top_bit
thousandths_size d =
    let e = d / 2 ^ 52 % 2048 in
    let product = (if e == 0 then d % 2 ^ 52 else 2 ^ 52 + d % 2 ^ 52) * 1000 in
    let k = top_bit 63 product - 52 in round_shift product k * 2 ^ (max e 1 + k) / 2 ^ 1075

-- The product is infinite from 2 ^ 1024 on.
unfoldable pub times_thousand : ℕ → Result ℤ
unfolding thousandths_size
times_thousand d =
    let size = thousandths_size d in
    if d / 2 ^ 52 % 2048 == 2047
    then (if d % 2 ^ 52 == 0 then err overflow_error else err value_error)
    else if leb (2 ^ 1024) size
    then err overflow_error
    else ok
        (if d / 2 ^ 63 % 2 == 0 then pos size else (if size == 0 then pos 0 else negsuc (size - 1)))

-- The bits of n / 1000.0, for n below 2 ^ 16.
unfoldable pub of_thousandths : ℕ → ℕ
unfolding top_bit
of_thousandths n =
    let k = top_bit 69 (n * 2 ^ 62 / 1000) - 52 in
    let unit = 1000 * 2 ^ k in
    let q = n * 2 ^ 62 / unit in
    let twice = 2 * (n * 2 ^ 62 % unit) in
    let up = ltb unit twice || (twice == unit && q % 2 == 1) in
    if n == 0 then 0 else (1012 + k) * 2 ^ 52 + (if up then q + 1 else q)
