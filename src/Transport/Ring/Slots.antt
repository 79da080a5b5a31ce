-- ===== src/Transport/Ring/Slots.antt =====
-- aicl/transport/shared_memory_ring.py: the slots do not overlap, and what one of them holds.
use aicl.Common.{
  ap, arith, inl, inr, length, suc, sym, ℕ, ◌%◌, ◌*◌, ◌+◌, ◌/◌, ◌<◌, ◌^◌, ◌∙◌, ◌≡◌, ◌≢◌, ◌≤◌, ◌⊎◌,
}
use aicl.Py.Struct.{Bytes, be, length-be}
use aicl.Transport.Memory.{
  Memory, put, put-other, put-same, read, read-agree, read-write, write, write-other,
}
use aicl.Transport.Ring.{ring_header_size, slot_offset}
use native.Mathlib.Decide.{dec_le, dec_lt}
use native.Mathlib.Nat.{
  add-mod_right, div-add-mod, mul-le-mul_left, mul-le-mul_right, mul-suc, suc-mul,
}

-- Two indices less than a round apart have different remainders.
mod-differs : (c i j : ℕ) → i < j → j < i + c → i % c ≢ j % c
mod-differs c i j lo hi e = elim (dec_le (j / c) (i / c)) [
  | yes before ↦ absurd (
      omega
        (arith, div-add-mod i c, div-add-mod j c, mul-le-mul_left {m = j / c} {n = i / c} c before))
  | no behind ↦ absurd (
      omega (
        arith,
        div-add-mod i c,
        div-add-mod j c,
        mul-le-mul_left {m = suc (i / c)} {n = j / c} c (omega arith),
        mul-suc c (i / c),
      ))
]

mod-apart : (c i j : ℕ) → i ≢ j → i < j + c → j < i + c → i % c ≢ j % c
mod-apart c i j n lo hi e = elim (dec_lt i j) [
  | yes less ↦ mod-differs c i j less hi e
  | no more ↦ mod-differs c j i (omega (arith, n)) lo (sym e)
]

offset-apart : (p q s : ℕ) → p < q → p * s + s ≤ q * s
offset-apart p q s h =
    omega (arith, mul-le-mul_right {m = suc p} {n = q} s (omega arith), suc-mul p s)

-- Different slots, less than a round apart, lie apart.
pub slots-apart :
    (c s i j : ℕ)
    → i ≢ j
    → i < j + c
    → j < i + c
    → (slot_offset c s i + s ≤ slot_offset c s j) ⊎ (slot_offset c s j + s ≤ slot_offset c s i)
unfolding slot_offset
slots-apart c s i j n lo hi = elim (dec_lt (i % c) (j % c)) [
  | yes less ↦ inl (omega (arith, offset-apart (i % c) (j % c) s less))
  | no more ↦
      inr (omega (arith, offset-apart (j % c) (i % c) s (omega (arith, mod-apart c i j n lo hi))))
]

-- A slot is one of the ring's, wherever the index stands.
pub slot_round : (c s i : ℕ) → slot_offset c s (i + c) ≡ slot_offset c s i
unfolding slot_offset
slot_round c s i = ap (λ (r : ℕ). ring_header_size + r * s) (add-mod_right i c)

-- The slot at `off` holds a message.
pub record InSlot (s : ℕ) (mem : Memory) (off : ℕ) (msg : Bytes) : Type 0 where
  pub used : mem off ≡ 1
  pub fits : length msg + 5 ≤ s
  pub small : length msg < 2 ^ 32
  pub size_there : read 4 (off + 1) mem ≡ be 4 (length msg)
  pub data_there : read (length msg) (off + 5) mem ≡ msg

-- A change outside the slot leaves it alone.
pub InSlot-agree :
    (s : ℕ) (mem mem' : Memory) (off : ℕ) (msg : Bytes)
    → ((x : ℕ) → off ≤ x → x < off + s → mem' x ≡ mem x)
    → InSlot s mem off msg
    → InSlot s mem' off msg
InSlot-agree s mem mem' off msg same h =
    let fits = h.fits in
    record {
      used = same off (omega arith) (omega arith) ∙ h.used;
      fits = h.fits;
      small = h.small;
      size_there =
          read-agree 4 (off + 1) mem mem' (λ x lo hi. same x (omega arith) (omega arith))
          ∙ h.size_there;
      data_there =
          read-agree (length msg) (off + 5) mem mem' (λ x lo hi. same x (omega arith) (omega arith))
          ∙ h.data_there;
    }

-- What `push_nowait` writes.
abbrev pub pushed : ℕ → Bytes → Memory → Memory
pushed off msg mem = put off 1 (write (off + 5) msg (write (off + 1) (be 4 (length msg)) mem))

pub pushed-other :
    (off : ℕ) (msg : Bytes) (mem : Memory) (x : ℕ)
    → (x < off) ⊎ (off + 5 + length msg ≤ x)
    → pushed off msg mem x ≡ mem x
pushed-other off msg mem x h =
    let sized : Memory = write (off + 1) (be 4 (length msg)) mem in
    put-other off 1 (write (off + 5) msg sized) x (λ e. ground arith)
    ∙ write-other (off + 5) msg sized x (ground arith)
    ∙ write-other (off + 1) (be 4 (length msg)) mem x (ground (arith, length-be 4 (length msg)))

pub pushed-InSlot :
    (s off : ℕ) (msg : Bytes) (mem : Memory)
    → length msg + 5 ≤ s
    → length msg < 2 ^ 32
    → InSlot s (pushed off msg mem) off msg
pushed-InSlot s off msg mem fits small =
    let sized : Memory = write (off + 1) (be 4 (length msg)) mem in
    let whole : Memory = write (off + 5) msg sized in
    record {
      used = put-same off 1 whole;
      fits = fits;
      small = small;
      size_there =
          read-agree 4 (off + 1) sized (put off 1 whole) (λ x lo hi.
            put-other off 1 whole x (λ e. omega arith)
            ∙ write-other (off + 5) msg sized x (inl (omega arith)))
          ∙ ap (λ (n : ℕ). read n (off + 1) sized) (sym (length-be 4 (length msg)))
          ∙ read-write (off + 1) (be 4 (length msg)) mem;
      data_there =
          read-agree (length msg) (off + 5) whole (put off 1 whole)
            (λ x lo hi. put-other off 1 whole x (λ e. omega arith))
          ∙ read-write (off + 5) msg sized;
    }
