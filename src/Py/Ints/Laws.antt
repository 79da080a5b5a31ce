-- ===== src/Py/Ints/Laws.antt =====
-- Packing succeeds exactly on the integers in range, and unpacking undoes it.
use aicl.Common.{
  Bool, ap, arith, false, length, le→ltb, lt→ltb, negsuc, pos, true, ℕ, ℤ, ◌*◌, ◌+◌, ◌-◌, ◌^◌, ◌≡◌,
}
use aicl.Py.Ints.{InRange, pack_int, unpack_int}
use aicl.Py.Result.{ok}
use aicl.Py.Struct.{Bytes, IsBytes, be, be-IsBytes, from_be, from_be-be, length-be}

pub pack_int-InRange :
    (s : Bool) (w : ℕ) (z : ℤ) {bs : Bytes} → pack_int s w z ≡ ok bs → InRange s w z
unfolding pack_int
pack_int-InRange false w (pos n) e = ground arith
pack_int-InRange false w (negsuc n) e = cc
pack_int-InRange true w (pos n) e = ground arith
pack_int-InRange true w (negsuc n) e = ground arith

pub unpack_int-pack_int :
    (s : Bool) (w : ℕ) (z : ℤ) {bs : Bytes}
    → pack_int s w z ≡ ok bs
    → (unpack_int s w bs ≡ z) × (length bs ≡ w) × IsBytes bs
unfolding pack_int unpack_int
unpack_int-pack_int false w (pos n) {bs} e =
    let fits = pack_int-InRange false w (pos n) e in
    let out : be w n ≡ bs = ground arith in
    rw (← out) (ap pos (from_be-be w n fits), length-be w n, be-IsBytes w n)
unpack_int-pack_int false w (negsuc n) e = cc
unpack_int-pack_int true w (pos n) {bs} e =
    let fits = pack_int-InRange true w (pos n) e in
    let out : be w n ≡ bs = ground arith in
    rw (← out) (
      rw (from_be-be w n (omega arith), lt→ltb (2 * n) (256 ^ w) fits),
      length-be w n,
      be-IsBytes w n,
    )
unpack_int-pack_int true w (negsuc n) {bs} e =
    let fits = pack_int-InRange true w (negsuc n) e in
    let m : ℕ = 256 ^ w - (n + 1) in
    let out : be w m ≡ bs = ground arith in
    let back : from_be 0 (be w m) ≡ m = from_be-be w m (omega arith) in
    rw (← out) (
      rw (back, le→ltb (2 * m) (256 ^ w) (omega arith)) (ap negsuc (omega arith)),
      length-be w m,
      be-IsBytes w m,
    )

pub pack_int_total :
    (s : Bool) (w : ℕ) (z : ℤ) → InRange s w z → (bs : Bytes) × (pack_int s w z ≡ ok bs)
unfolding pack_int
pack_int_total false w (pos n) h = (be w n, rw (lt→ltb n (256 ^ w) h))
pack_int_total false w (negsuc n) h = absurd h
pack_int_total true w (pos n) h = (be w n, rw (lt→ltb (2 * n) (256 ^ w) h))
pack_int_total true w (negsuc n) h = (be w (256 ^ w - (n + 1)), rw (lt→ltb (2 * n + 1) (256 ^ w) h))
