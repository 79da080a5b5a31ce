-- ===== src/Bin/Varint/RoundTrip.antt =====
-- aicl/bin/varint.py: what `encode_varint` writes, `decode_varint` reads back below 2^28.
use aicl.Common.{
  [], ap, arith, bit_and, bit_and_mask, bit_and_single, bit_or, bit_or-zero, bit_or_field, pos,
  refl, suc, zero, ℕ, ◌%◌, ◌*◌, ◌++◌, ◌+◌, ◌/◌, ◌<◌, ◌^◌, ◌∙◌, ◌∷◌, ◌≡◌, ◌≤◌,
}
use aicl.Bin.Varint.{decode_rounds, decode_varint, encode_rounds, encode_varint}
use aicl.Py.Result.{ok}
use aicl.Py.Struct.{Bytes}
use native.Mathlib.Decide.{dec_lt}
use native.Mathlib.Nat.{div-add-mod, pow-suc}
use native.Mathlib.Numerals.{towards_suc}

low_group : (v : ℕ) → bit_or (bit_and v 0x7F) 0 ≡ v % 128
low_group v = bit_or-zero (bit_and v 0x7F) ∙ bit_and_mask 7 v

inner_group : (v : ℕ) → bit_or (bit_and v 0x7F) 0x80 ≡ v % 128 + 128
inner_group v =
    ap (λ (t : ℕ). bit_or t 0x80) (bit_and_mask 7 v) ∙ bit_or_field 7 1 (v % 128) (omega arith)

-- One round of the encoder: on the last group, and on any other.
pub encode_rounds_last : (k v : ℕ) → v < 128 → encode_rounds (suc k) v ≡ v ∷ []
unfolding encode_rounds
encode_rounds_last k v h = ground (arith, low_group v)

pub encode_rounds_more :
    (k v : ℕ) → 128 ≤ v → encode_rounds (suc k) v ≡ (v % 128 + 128) ∷ encode_rounds k (v / 128)
unfolding encode_rounds
encode_rounds_more k v h = ground (arith, inner_group v)

-- One round of the decoder: on a byte without the top bit, and on one with it.
pub decode_rounds_last :
    (k shift acc g : ℕ) (src : Bytes)
    → g < 128
    → acc < 2 ^ shift
    → decode_rounds (suc k) shift acc (g ∷ src) ≡ ok (acc + g * 2 ^ shift, src)
unfolding decode_rounds
decode_rounds_last k shift acc g src hg ha =
    let group : bit_and g 0x7F ≡ g = bit_and_mask 7 g ∙ omega arith in
    let top : bit_and g 0x80 ≡ 0 = bit_and_single 7 g ∙ omega arith in
    ground (arith, group, top, bit_or_field shift g acc ha)

pub decode_rounds_more :
    (k shift acc g : ℕ) (src : Bytes)
    → g < 128
    → acc < 2 ^ shift
    → decode_rounds (suc k) shift acc ((g + 128) ∷ src)
      ≡ decode_rounds k (shift + 7) (acc + g * 2 ^ shift) src
unfolding decode_rounds
decode_rounds_more k shift acc g src hg ha =
    let group : bit_and (g + 128) 0x7F ≡ g = bit_and_mask 7 (g + 128) ∙ omega arith in
    let top : bit_and (g + 128) 0x80 ≡ 128 = bit_and_single 7 (g + 128) ∙ omega arith in
    ground (arith, group, top, bit_or_field shift g acc ha)

pub pow_seven : (s : ℕ) → 2 ^ (s + 7) ≡ 128 * 2 ^ s
pow_seven s = simp towards_suc (omega arith)

-- The groups below the shift stay below the next one.
pub group_fits : (s acc g : ℕ) → g < 128 → acc < 2 ^ s → acc + g * 2 ^ s < 2 ^ (s + 7)
group_fits s acc g hg ha = grind (arith, pow_seven s)

regroup : (s acc v : ℕ) → acc + v % 128 * 2 ^ s + v / 128 * 2 ^ (s + 7) ≡ acc + v * 2 ^ s
regroup s acc v = omega (
  arith,
  ap (λ (t : ℕ). t * 2 ^ s) (div-add-mod v 128),
  ap (λ (t : ℕ). v / 128 * t) (pow_seven s),
)

decode-encode_rounds :
    (k v shift acc : ℕ) (rest : Bytes)
    → v < 128 ^ suc k
    → acc < 2 ^ shift
    → decode_rounds (suc k) shift acc (encode_rounds (suc k) v ++ rest)
      ≡ ok (acc + v * 2 ^ shift, rest)
decode-encode_rounds zero v shift acc rest hv ha =
    rw (encode_rounds_last 0 v (omega arith))
      (decode_rounds_last 0 shift acc v rest (omega arith) ha)
decode-encode_rounds (suc k) v shift acc rest hv ha = elim (dec_lt v 128) [
  | yes small ↦
      rw (encode_rounds_last (suc k) v small) (decode_rounds_last (suc k) shift acc v rest small ha)
  | no big ↦
      let g : ℕ = v % 128 in
      rw (encode_rounds_more (suc k) v (omega arith)) (
        decode_rounds_more (suc k) shift acc g _ (omega arith) ha
        ∙ decode-encode_rounds k (v / 128) (shift + 7) (acc + g * 2 ^ shift) rest
            (omega (arith, pow-suc 128 (suc k))) (group_fits shift acc g (omega arith) ha)
        ∙ ap (λ (t : ℕ). ok (t, rest)) (regroup shift acc v))
]

pub encode_varint_codes :
    (v : ℕ)
    → v < 2 ^ 28
    → (out : Bytes) × (encode_varint (pos v) ≡ ok out)
      × ((rest : Bytes) → decode_varint (out ++ rest) ≡ ok (v, rest))
unfolding encode_varint decode_varint
encode_varint_codes v h = (
  encode_rounds 4 v,
  refl,
  λ rest.
      decode-encode_rounds 3 v 0 0 rest (omega arith) (omega arith)
      ∙ ap (λ (t : ℕ). ok (t, rest)) (omega arith),
)

-- `encode_varint` succeeds on every number below 2^28, and `decode_varint` reads that number back
-- off the front of any input, leaving exactly what follows it.
pub decode_varint-encode_varint :
    (v : ℕ) (rest : Bytes)
    → v < 2 ^ 28
    → (out : Bytes) × (encode_varint (pos v) ≡ ok out)
      × (decode_varint (out ++ rest) ≡ ok (v, rest))
decode_varint-encode_varint v rest h =
    let (out, wrote, read) = encode_varint_codes v h in (out, wrote, read rest)
