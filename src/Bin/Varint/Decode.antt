-- ===== src/Bin/Varint/Decode.antt =====
-- aicl/bin/varint.py: `decode_varint` on any bytes, and the numbers that `encode_varint` cuts off.
use aicl.Common.{
  [], ap, arith, bit_and, bit_or, inl, inr, length, pos, refl, suc, sym, zero, ℕ, ◌%◌, ◌*◌, ◌++◌,
  ◌+◌, ◌-◌, ◌/◌, ◌<◌, ◌==◌, ◌^◌, ◌∙◌, ◌∷◌, ◌≡◌, ◌≤◌, ◌⊎◌,
}
use aicl.Bin.Varint.{decode_rounds, decode_varint, encode_rounds, encode_varint}
use aicl.Bin.Varint.RoundTrip.{
  decode_rounds_last, decode_rounds_more, encode_rounds_more, group_fits,
}
use aicl.Py.Result.{Exc, err, ok, symbol_error}
use aicl.Py.Result.Ensures.{Ensures, Ensures-if, holds, raises, weaken}
use aicl.Py.Struct.{Bytes, IsByte, IsBytes}
use native.Mathlib.Decide.{dec_lt}
use native.Mathlib.Nat.{add-suc, add-zero, one-le-pow, pow-suc}

-- A byte is its low group, or its low group with the top bit over it.
byte_cases : (b : ℕ) → IsByte b → (b < 128) ⊎ ((g : ℕ) × (g < 128) × (b ≡ g + 128))
byte_cases b h = elim (dec_lt b 128) [
  | yes low ↦ inl low
  | no high ↦ inr (b - 128, omega arith, omega arith)
]

record Reads (k shift : ℕ) (src : Bytes) (v : ℕ) (rest : Bytes) : Type 0 where
  small : v < 2 ^ (shift + 7 * k)
  shorter : length rest < length src
  near : length src ≤ length rest + k
  bytes : IsBytes rest

pow_regroup : (s k : ℕ) → 2 ^ (s + 7 * suc k) ≡ 2 ^ (s + 7 + 7 * k)
pow_regroup s k = ap (λ (t : ℕ). 2 ^ t) (omega arith)

pow_grows : (s k : ℕ) → 2 ^ s ≤ 2 ^ (s + k)
pow_grows s zero = rw add-zero (omega arith)
pow_grows s (suc k) = rw (add-suc, pow-suc) (omega (arith, pow_grows s k))

decode_rounds-Reads :
    (k shift acc : ℕ) (src : Bytes) {v : ℕ} {rest : Bytes}
    → IsBytes src
    → acc < 2 ^ shift
    → decode_rounds k shift acc src ≡ ok (v, rest)
    → Reads k shift src v rest
decode_rounds-Reads zero shift acc src hb ha e = unfold decode_rounds in cc
decode_rounds-Reads (suc k) shift acc [] hb ha e = unfold decode_rounds in cc
decode_rounds-Reads (suc k) shift acc (b ∷ src) {v} {rest} hb ha e = elim (byte_cases b hb.0) [
  | inl low ↦ ground (
    arith,
    decode_rounds_last k shift acc b src low ha,
    group_fits shift acc b low ha,
    pow_grows (shift + 7) (7 * k),
    pow_regroup shift k,
  )
  | inr (g, hg, eb) ↦
      let e' : decode_rounds k (shift + 7) (acc + g * 2 ^ shift) src ≡ ok (v, rest) =
        sym (decode_rounds_more k shift acc g src hg ha) ∙ (rw eb at e) in
      ground (
        arith,
        decode_rounds-Reads k (shift + 7) (acc + g * 2 ^ shift) src hb.1
            (group_fits shift acc g hg ha) e',
        pow_regroup shift k,
      )
]

-- When `decode_varint` succeeds on bytes, the number is below 2^28, it has taken one to four bytes,
-- and what is left are bytes.
pub decode_varint_bounds :
    (src : Bytes) {v : ℕ} {rest : Bytes}
    → IsBytes src
    → decode_varint src ≡ ok (v, rest)
    → (v < 2 ^ 28) × (length rest < length src) × (length src ≤ length rest + 4) × IsBytes rest
unfolding decode_varint
decode_varint_bounds src hb e =
    let r = decode_rounds-Reads 4 0 0 src hb (omega arith) e in
    (r.small, r.shorter, r.near, r.bytes)

decode_rounds-append :
    (k shift acc : ℕ) (src more : Bytes) {v : ℕ} {rest : Bytes}
    → decode_rounds k shift acc src ≡ ok (v, rest)
    → decode_rounds k shift acc (src ++ more) ≡ ok (v, rest ++ more)
unfolding decode_rounds
decode_rounds-append zero shift acc src more e = cc
decode_rounds-append (suc k) shift acc [] more e = cc
decode_rounds-append (suc k) shift acc (b ∷ src) more {v} {rest} e =
    let acc' : ℕ = bit_or acc (bit_and b 0x7F * 2 ^ shift) in
    ground (arith, decode_rounds-append k (shift + 7) acc' src more {v = v} {rest = rest})

-- `decode_varint` does not look past the number: bytes added behind the input join what is left.
pub decode_varint-append :
    (src more : Bytes) {v : ℕ} {rest : Bytes}
    → decode_varint src ≡ ok (v, rest)
    → decode_varint (src ++ more) ≡ ok (v, rest ++ more)
unfolding decode_varint
decode_varint-append src more e = decode_rounds-append 4 0 0 src more e

decode_rounds_raises :
    (k shift acc : ℕ) (src : Bytes) {x : Exc}
    → decode_rounds k shift acc src ≡ err x
    → x ≡ symbol_error
unfolding decode_rounds
decode_rounds_raises zero shift acc src e = cc
decode_rounds_raises (suc k) shift acc [] e = cc
decode_rounds_raises (suc k) shift acc (b ∷ src) {x} e =
    let acc' : ℕ = bit_or acc (bit_and b 0x7F * 2 ^ shift) in
    ground (arith, decode_rounds_raises k (shift + 7) acc' src {x = x})

decode_rounds-Ensures :
    (k shift acc : ℕ) (src : Bytes)
    → Ensures (λ r. length r.1 < length src) (decode_rounds k shift acc src)
unfolding decode_rounds
decode_rounds-Ensures zero shift acc src = raises (λ e. cc)
decode_rounds-Ensures (suc k) shift acc [] = raises (λ e. cc)
decode_rounds-Ensures (suc k) shift acc (b ∷ src) =
    Ensures-if (bit_and b 0x80 == 0) (holds (omega arith)) (
      weaken (λ r h. omega arith)
        (decode_rounds-Ensures k (shift + 7) (bit_or acc (bit_and b 0x7F * 2 ^ shift)) src))

pub decode_varint-Ensures :
    (src : Bytes) → Ensures (λ r. length r.1 < length src) (decode_varint src)
unfolding decode_varint
decode_varint-Ensures src = decode_rounds-Ensures 4 0 0 src

-- The only exception that `decode_varint` raises is SymbolError.
pub decode_varint_raises : (src : Bytes) {x : Exc} → decode_varint src ≡ err x → x ≡ symbol_error
unfolding decode_varint
decode_varint_raises src e = decode_rounds_raises 4 0 0 src e

decode_rounds_overlong :
    (k v shift acc : ℕ) (rest : Bytes)
    → 128 ^ k ≤ v
    → acc < 2 ^ shift
    → (length (encode_rounds k v) ≡ k)
      × (decode_rounds k shift acc (encode_rounds k v ++ rest) ≡ err symbol_error)
decode_rounds_overlong zero v shift acc rest hv ha =
    unfold encode_rounds decode_rounds in (refl, refl)
decode_rounds_overlong (suc k) v shift acc rest hv ha =
    let g : ℕ = v % 128 in
    let wide : 128 ≤ v = omega (arith, pow-suc 128 k, one-le-pow k 128 (omega arith)) in
    let (long, stop) =
      decode_rounds_overlong k (v / 128) (shift + 7) (acc + g * 2 ^ shift) rest
        (omega (arith, pow-suc 128 k)) (group_fits shift acc g (omega arith) ha) in
    rw (encode_rounds_more k v wide)
      (ap suc long, decode_rounds_more k shift acc g _ (omega arith) ha ∙ stop)

-- From 2^28 on `encode_varint` returns four bytes and no error, and `decode_varint` raises
-- SymbolError on them, whatever follows.
pub encode_varint_overlong :
    (v : ℕ) (rest : Bytes)
    → 2 ^ 28 ≤ v
    → (out : Bytes) × (encode_varint (pos v) ≡ ok out)
      × (length out ≡ 4)
      × (decode_varint (out ++ rest) ≡ err symbol_error)
unfolding encode_varint decode_varint
encode_varint_overlong v rest h =
    let (long, stop) = decode_rounds_overlong 4 v 0 0 rest (omega arith) (omega arith) in
    (encode_rounds 4 v, refl, long, stop)
