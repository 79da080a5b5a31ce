-- ===== src/Py/Struct.antt =====
-- Bytes, and `struct.pack` / `struct.unpack_from` of the standard library for the formats used:
-- `>` is big-endian, `<` little-endian; a value that does not fit raises struct.error.
use aicl.Common.{
  All, All-append, List, [], ap, arith, drop, drop-append, drop-append_ge, if◌then◌else◌, length,
  length-append, length-take, le→ltb, ltb, lt→ltb, refl, suc, take, take-append, take-append-drop,
  zero, ℕ, ◌%◌, ◌*◌, ◌++◌, ◌+◌, ◌/◌, ◌<◌, ◌^◌, ◌∙◌, ◌∷◌, ◌≡◌,
}
use aicl.Py.Result.{Exc, Result, err, ok, struct_error}
use native.Mathlib.Decide.{dec_lt}
use native.Mathlib.Nat.{pow-suc}

abbrev pub Bytes : Type 0
Bytes = List ℕ

abbrev pub IsByte : ℕ → Type 0
IsByte b = b < 256

abbrev pub IsBytes : Bytes → Type 0
IsBytes bs = All IsByte bs

-- The `w` low bytes of a number, highest first.
unfoldable pub be : ℕ → ℕ → Bytes
be zero n = []
be (suc w) n = be w (n / 256) ++ (n % 256 ∷ [])

-- The number that bytes stand for behind the digits `acc`, highest first.
unfoldable pub from_be : ℕ → Bytes → ℕ
from_be acc [] = acc
from_be acc (b ∷ bs) = from_be (acc * 256 + b) bs

pub length-be : (w n : ℕ) → length (be w n) ≡ w
unfolding be
length-be zero n = refl
length-be (suc w) n =
    omega (arith, length-append (be w (n / 256)) (n % 256 ∷ []), length-be w (n / 256))

pub be-IsBytes : (w n : ℕ) → IsBytes (be w n)
unfolding be
be-IsBytes zero n = tt
be-IsBytes (suc w) n =
    All-append IsByte (be w (n / 256)) (n % 256 ∷ []) (be-IsBytes w (n / 256)) (omega arith)

from_be-append : (acc b : ℕ) (xs : Bytes) → from_be acc (xs ++ (b ∷ [])) ≡ from_be acc xs * 256 + b
unfolding from_be
from_be-append acc b [] = refl
from_be-append acc b (x ∷ xs) = from_be-append (acc * 256 + x) b xs

pub from_be-be : (w n : ℕ) → n < 256 ^ w → from_be 0 (be w n) ≡ n
unfolding be from_be
from_be-be zero n h = omega arith
from_be-be (suc w) n h =
    from_be-append 0 (n % 256) (be w (n / 256))
    ∙ omega (arith, from_be-be w (n / 256) (omega (arith, pow-suc 256 w)))

-- `data[pos:pos + n]` behind a bounds check that raises `e`, with what follows.
unfoldable pub read_bytes : Exc → ℕ → Bytes → Result (Bytes × Bytes)
read_bytes e n src = if ltb (length src) n then err e else ok (take n src, drop n src)

pub read_bytes-append :
    (e : Exc) (n : ℕ) (xs ys : Bytes) → length xs ≡ n → read_bytes e n (xs ++ ys) ≡ ok (xs, ys)
unfolding read_bytes
read_bytes-append e n xs ys h = rw (
  le→ltb (length (xs ++ ys)) n (omega (arith, length-append xs ys)),
  take-append n xs ys h,
  drop-append n xs ys h,
)

-- A successful read splits the input at `n`.
pub read_bytes-ok :
    (e : Exc) (n : ℕ) (src : Bytes) {a b : Bytes}
    → read_bytes e n src ≡ ok (a, b)
    → (src ≡ a ++ b) × (length a ≡ n)
unfolding read_bytes
read_bytes-ok e n src h = ground (arith, take-append-drop n src, length-take n src)

-- `data[i:i + n]`.
abbrev pub slice : ℕ → ℕ → Bytes → Bytes
slice i n bs = take n (drop i bs)

-- `struct.unpack_from` of one unsigned big-endian integer of `w` bytes at offset `i`.
unfoldable pub unpack_at : ℕ → ℕ → Bytes → Result ℕ
unpack_at w i bs =
    if ltb (length bs) (i + w) then err struct_error else ok (from_be 0 (slice i w bs))

-- A part of known length at a known offset.
pub slice-append :
    (j n : ℕ) (xs ys zs : Bytes) → length xs ≡ j → length ys ≡ n → slice j n (xs ++ (ys ++ zs)) ≡ ys
slice-append j n xs ys zs h e = ap (take n) (drop-append j xs (ys ++ zs) h) ∙ take-append n ys zs e

pub unpack_at-append :
    (w j n : ℕ) (xs zs : Bytes)
    → length xs ≡ j
    → n < 256 ^ w
    → unpack_at w j (xs ++ (be w n ++ zs)) ≡ ok n
unfolding unpack_at
unpack_at-append w j n xs zs h small = rw (
  le→ltb (length (xs ++ (be w n ++ zs))) (j + w)
      (omega (arith, length-append xs (be w n ++ zs), length-append (be w n) zs, length-be w n)),
  slice-append j w xs (be w n) zs h (length-be w n),
  from_be-be w n small,
)

-- Reading past a part of known length.
pub slice-skip :
    (j k i n : ℕ) (xs ys : Bytes) → length xs ≡ k → j ≡ k + i → slice j n (xs ++ ys) ≡ slice i n ys
slice-skip j k i n xs ys h e = ap (take n) (drop-append_ge j k i xs ys h e)

pub unpack_at-skip :
    (w j k i : ℕ) (xs ys : Bytes)
    → length xs ≡ k
    → j ≡ k + i
    → unpack_at w j (xs ++ ys) ≡ unpack_at w i ys
unfolding unpack_at
unpack_at-skip w j k i xs ys h e = elim (dec_lt (length ys) (i + w)) [
  | yes short ↦ rw (
    lt→ltb (length ys) (i + w) short,
    lt→ltb (length (xs ++ ys)) (j + w) (omega (arith, length-append xs ys)),
  )
  | no long ↦ rw (
    le→ltb (length ys) (i + w) (omega arith),
    le→ltb (length (xs ++ ys)) (j + w) (omega (arith, length-append xs ys)),
    slice-skip j k i w xs ys h e,
  )
]

pub unpack_at-be : (w n : ℕ) (zs : Bytes) → n < 256 ^ w → unpack_at w 0 (be w n ++ zs) ≡ ok n
unpack_at-be w n zs small = unpack_at-append w 0 n [] zs refl small
