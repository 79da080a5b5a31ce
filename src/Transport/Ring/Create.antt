-- ===== src/Transport/Ring/Create.antt =====
-- aicl/transport/shared_memory_ring.py: `create` and `attach`.
use aicl.Common.{
  [], ap, arith, length, length-append, lt→ltb, refl, suc, sym, take_all, zero, ℕ, ◌++◌, ◌+◌, ◌-◌,
  ◌<◌, ◌^◌, ◌∙◌, ◌≡◌, ◌≢◌, ◌≤◌,
}
use aicl.Py.Result.{ok}
use aicl.Py.Struct.{Bytes, be, from_be-be, length-be, slice, slice-append, slice-skip}
use aicl.Transport.Memory.{
  Memory, put, put-other, put-same, read, read-agree, read-slice, read-write, write,
}
use aicl.Transport.Ring.{Ring, attach, clear_slots, create, ring_magic, slot_offset}
use aicl.Transport.Ring.Queue.{Free, Holds}
use native.Mathlib.Decide.{ℕ_discrete}

clear_slots-zero :
    (c s n i : ℕ) (mem : Memory) → i < n → clear_slots c s n mem (slot_offset c s i) ≡ 0
unfolding clear_slots
clear_slots-zero c s zero i mem h = absurd (omega arith)
clear_slots-zero c s (suc n) i mem h = elim (ℕ_discrete (slot_offset c s i) (slot_offset c s n)) [
  | yes same ↦
      ap (put (slot_offset c s n) 0 (clear_slots c s n mem)) same
      ∙ put-same (slot_offset c s n) 0 (clear_slots c s n mem)
  | no other ↦
      put-other (slot_offset c s n) 0 (clear_slots c s n mem) (slot_offset c s i) other
      ∙ clear_slots-zero c s n i mem (below n i h (λ e. other (ap (slot_offset c s) e)))
]
  where
    below : (n i : ℕ) → i < suc n → i ≢ n → i < n
    below n i h k = omega (arith, k)

-- The header lies before the slots.
clear_slots-header : (c s n x : ℕ) (mem : Memory) → x < 20 → clear_slots c s n mem x ≡ mem x
unfolding clear_slots slot_offset
clear_slots-header c s zero x mem h = refl
clear_slots-header c s (suc n) x mem h =
    put-other (slot_offset c s n) 0 (clear_slots c s n mem) x (λ e. omega arith)
    ∙ clear_slots-header c s n x mem h

zeros-Free :
    (c s : ℕ) (mem : Memory) (idx n : ℕ)
    → ((i : ℕ) → idx ≤ i → i < idx + n → mem (slot_offset c s i) ≡ 0)
    → Free c s mem idx n
zeros-Free c s mem idx zero h = tt
zeros-Free c s mem idx (suc n) h = (
  h idx (omega arith) (omega arith),
  zeros-Free c s mem (idx + 1) n (λ i lo hi. h i (omega arith) (omega arith)),
)

-- The memory that `create` leaves.
abbrev created : ℕ → ℕ → Memory → Memory
created c s segment = clear_slots c s c (write 0 (ring_magic ++ (be 8 c ++ be 8 s)) segment)

zero-add : (a : ℕ) → a ≡ 0 + a
zero-add a = omega arith

-- The header reads back from the new memory.
attach-created :
    (c s : ℕ) (segment : Memory)
    → c < 2 ^ 64
    → s < 2 ^ 64
    → attach (created c s segment) ≡ ok (c, s)
unfolding attach
attach-created c s segment hc hs =
    let header : Bytes = ring_magic ++ (be 8 c ++ be 8 s) in
    let front : Memory = write 0 header segment in
    let size : length header ≡ 20 =
      omega (arith, length-append (be 8 c) (be 8 s), length-be 8 c, length-be 8 s) in
    let all : read 20 0 front ≡ header =
      ap (λ (n : ℕ). read n 0 front) (sym size) ∙ read-write 0 header segment in
    let kept : (n a : ℕ) → a + n ≤ 20 → read n a (created c s segment) ≡ slice a n header = λ n a h.
      read-agree n a front (created c s segment)
        (λ x lo hi. clear_slots-header c s c x front (omega arith))
      ∙ ap (λ (k : ℕ). read n k front) (zero-add a)
      ∙ read-slice 20 0 a n front h
      ∙ ap (slice a n) all in
    let c_there : slice 4 8 header ≡ be 8 c =
      slice-append 4 8 ring_magic (be 8 c) (be 8 s) refl (length-be 8 c) in
    let s_there : slice 12 8 header ≡ be 8 s =
      slice-skip 12 4 8 8 ring_magic (be 8 c ++ be 8 s) refl refl
      ∙ slice-skip 8 8 0 8 (be 8 c) (be 8 s) (length-be 8 c) refl
      ∙ take_all 8 (be 8 s) (length-be 8 s) in
    rw
      (
        kept 4 0 (omega arith),
        kept 8 4 (omega arith) ∙ c_there,
        kept 8 12 (omega arith) ∙ s_there,
        from_be-be 8 c hc,
        from_be-be 8 s hs,
      )
      refl

-- `create` with at least one slot, of five bytes or more, makes a ring that holds the empty queue,
-- whatever the segment held before, and `attach` reads the capacity and the slot size from its memory.
pub create-Holds :
    (c s : ℕ) (segment : Memory)
    → 0 < c
    → c < 2 ^ 64
    → 5 ≤ s
    → s < 2 ^ 64
    → (r : Ring) × (create c s segment ≡ ok r) × Holds r [] × (attach r.memory ≡ ok (c, s))
unfolding create
create-Holds c s segment some_slots hc room hs = (
  record { memory = created c s segment; capacity = c; slot_size = s; write_idx = 0; read_idx = 0 },
  rw (lt→ltb c (2 ^ 64) hc, lt→ltb s (2 ^ 64) hs) refl,
  record {
    some_slots = some_slots;
    slot_room = room;
    cursors = refl;
    few = omega arith;
    stored = tt;
    free =
        zeros-Free c s (created c s segment) 0 (c - 0)
          (λ i lo hi. clear_slots-zero c s c i _ (omega arith));
  },
  attach-created c s segment hc hs,
)
