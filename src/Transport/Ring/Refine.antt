-- ===== src/Transport/Ring/Refine.antt =====
-- aicl/transport/shared_memory_ring.py: `push_nowait` and `pop_nowait` on the queue that a ring holds.
use aicl.Common.{
  List, [], ap, arith, inl, inr, length, length-append, le→leb, lt→ltb, refl, subst, suc, zero, ℕ,
  ◌++◌, ◌+◌, ◌-◌, ◌<◌, ◌^◌, ◌∙◌, ◌∷◌, ◌≡◌, ◌≤◌, ◌⊎◌,
}
use aicl.Py.Result.{err, ok, ring_empty, ring_full}
use aicl.Py.Struct.{Bytes, from_be, from_be-be}
use aicl.Transport.Memory.{Memory, put, put-other, put-same, read}
use aicl.Transport.Ring.{Ring, pop_nowait, push_nowait, slot, slot_offset}
use aicl.Transport.Ring.Queue.{
  Free, Free-agree, Free-snoc, Holds, Stored, Stored-agree, Stored-snoc,
}
use aicl.Transport.Ring.Slots.{InSlot, pushed, pushed-InSlot, pushed-other, slot_round}
use native.Mathlib.Decide.{dec_lt}

slot_ok :
    (r : Ring) (idx : ℕ) → 0 < r.capacity → slot r idx ≡ ok (slot_offset r.capacity r.slot_size idx)
unfolding slot
slot_ok r idx h = ground (arith, h)

-- The ring behind a push and behind a pop.
abbrev after_push : Bytes → Ring → Ring
after_push m r = record {
  memory = pushed (slot_offset r.capacity r.slot_size r.write_idx) m r.memory;
  capacity = r.capacity;
  slot_size = r.slot_size;
  write_idx = r.write_idx + 1;
  read_idx = r.read_idx;
}

abbrev after_pop : Ring → Ring
after_pop r = record {
  memory = put (slot_offset r.capacity r.slot_size r.read_idx) 0 r.memory;
  capacity = r.capacity;
  slot_size = r.slot_size;
  write_idx = r.write_idx;
  read_idx = r.read_idx + 1;
}

-- The first of some free slots is free.
Free-here :
    (c s : ℕ) (mem : Memory) (idx n : ℕ)
    → 0 < n
    → Free c s mem idx n
    → mem (slot_offset c s idx) ≡ 0
Free-here c s mem idx zero h f = absurd (omega arith)
Free-here c s mem idx (suc n) h f = f.0

Stored-here :
    (c s : ℕ) (mem : Memory) (idx : ℕ) (q : List Bytes)
    → 0 < length q
    → Stored c s mem idx q
    → mem (slot_offset c s idx) ≡ 1
Stored-here c s mem idx [] h k = absurd (omega arith)
Stored-here c s mem idx (m ∷ q) h k = k.0.used

Free-rest :
    (c s : ℕ) (mem : Memory) (idx n k : ℕ)
    → n ≡ suc k
    → Free c s mem idx n
    → Free c s mem (idx + 1) k
Free-rest c s mem idx zero k e f = absurd (omega arith)
Free-rest c s mem idx (suc n) k e f = subst (λ (m : ℕ). Free c s mem (idx + 1) m) (omega arith) f.1

after_push-Holds :
    (r : Ring) (q : List Bytes) (m : Bytes)
    → Holds r q
    → length m + 5 ≤ r.slot_size
    → length m < 2 ^ 32
    → length q < r.capacity
    → Holds (after_push m r) (q ++ (m ∷ []))
after_push-Holds r q m h fits small room =
    let c : ℕ = r.capacity in
    let s : ℕ = r.slot_size in
    let w : ℕ = r.write_idx in
    let mem' : Memory = pushed (slot_offset c s w) m r.memory in
    let cur = h.cursors in
    let grown : length (q ++ (m ∷ [])) ≡ length q + 1 = length-append q (m ∷ []) in
    let outside : (x : ℕ)
        → (x < slot_offset c s w) ⊎ (slot_offset c s w + s ≤ x)
        → mem' x ≡ r.memory x =
      λ x away. pushed-other (slot_offset c s w) m r.memory x (ground (arith, away, fits)) in
    record {
      some_slots = h.some_slots;
      slot_room = h.slot_room;
      cursors = omega (arith, cur, grown);
      few = omega (arith, grown);
      stored =
          Stored-snoc c s mem' r.read_idx q m
            (Stored-agree c s w r.memory mem' r.read_idx q outside
              (λ i from to. ((λ e. omega (arith, cur)), omega (arith, cur), omega (arith, cur)))
              h.stored)
            (subst (λ (i : ℕ). InSlot s mem' (slot_offset c s i) m) cur
              (pushed-InSlot s (slot_offset c s w) m r.memory fits small));
      free =
          Free-agree c s w r.memory mem' (w + 1) (c - length (q ++ (m ∷ [])))
            (omega (arith, h.slot_room)) outside
            (λ i from to. ((λ e. omega arith), omega (arith, grown), omega (arith, grown)))
            (Free-rest c s r.memory w (c - length q) (c - length (q ++ (m ∷ [])))
              (omega (arith, grown)) h.free);
    }

-- On a ring that holds a queue, `push_nowait` of a message that a slot takes appends it when fewer
-- messages than slots are held, and raises RingFull otherwise.
pub push_nowait-Holds :
    (r : Ring) (q : List Bytes) (m : Bytes)
    → Holds r q
    → length m + 5 ≤ r.slot_size
    → length m < 2 ^ 32
    → ((length q < r.capacity) × (r' : Ring) × (push_nowait m r ≡ ok r') × Holds r' (q ++ (m ∷ [])))
      ⊎ ((length q ≡ r.capacity) × (push_nowait m r ≡ err ring_full))
unfolding push_nowait
push_nowait-Holds r q m h fits small = elim (dec_lt (length q) r.capacity) [
  | yes room ↦
      let zero_there : r.memory (slot_offset r.capacity r.slot_size r.write_idx) ≡ 0 =
        Free-here r.capacity r.slot_size r.memory r.write_idx (r.capacity - length q) (omega arith)
          h.free in
      inl (
        room,
        after_push m r,
        rw
            (
              le→leb (length m + 5) r.slot_size fits,
              slot_ok r r.write_idx h.some_slots,
              zero_there,
              lt→ltb (length m) (2 ^ 32) small,
            )
            refl,
        after_push-Holds r q m h fits small room,
      )
  | no full ↦
      let all : length q ≡ r.capacity = omega (arith, h.few) in
      let one_there : r.memory (slot_offset r.capacity r.slot_size r.write_idx) ≡ 1 =
        ap r.memory (
          ap (slot_offset r.capacity r.slot_size) (omega (arith, h.cursors))
          ∙ slot_round r.capacity r.slot_size r.read_idx)
        ∙ Stored-here r.capacity r.slot_size r.memory r.read_idx q (omega (arith, h.some_slots))
            h.stored in
      inr (
        all,
        rw (le→leb (length m + 5) r.slot_size fits, slot_ok r r.write_idx h.some_slots, one_there)
            refl,
      )
]

after_pop-Holds : (r : Ring) (m : Bytes) (q : List Bytes) → Holds r (m ∷ q) → Holds (after_pop r) q
after_pop-Holds r m q h =
    let c : ℕ = r.capacity in
    let s : ℕ = r.slot_size in
    let i0 : ℕ = r.read_idx in
    let mem' : Memory = put (slot_offset c s i0) 0 r.memory in
    let cur = h.cursors in
    let few = h.few in
    let back : suc (c - suc (length q)) ≡ c - length q = omega (arith, few) in
    let outside : (x : ℕ)
        → (x < slot_offset c s i0) ⊎ (slot_offset c s i0 + s ≤ x)
        → mem' x ≡ r.memory x =
      λ x away.
        put-other (slot_offset c s i0) 0 r.memory x (λ e. ground (arith, away, h.slot_room)) in
    record {
      some_slots = h.some_slots;
      slot_room = h.slot_room;
      cursors = omega (arith, cur);
      few = omega (arith, few);
      stored =
          Stored-agree c s i0 r.memory mem' (i0 + 1) q outside
            (λ i from to. ((λ e. omega arith), omega (arith, few), omega arith)) h.stored.1;
      free =
          subst (λ (n : ℕ). Free c s mem' r.write_idx n) back
            (Free-snoc c s mem' r.write_idx (c - suc (length q))
              (Free-agree c s i0 r.memory mem' r.write_idx (c - suc (length q))
                (omega (arith, h.slot_room)) outside
                (λ i from to.
                  ((λ e. omega (arith, cur)), omega (arith, cur, few), omega (arith, cur)))
                h.free)
              (ap mem' (ap (slot_offset c s) (omega (arith, cur, few)) ∙ slot_round c s i0)
                ∙ put-same (slot_offset c s i0) 0 r.memory));
    }

-- On a ring that holds a queue, `pop_nowait` returns the oldest message and leaves the others, and
-- raises RingEmpty when there is none.
pub pop_nowait-Holds :
    (r : Ring) (q : List Bytes)
    → Holds r q
    → ((m : Bytes) × (rest : List Bytes) × (q ≡ m ∷ rest)
        × (r' : Ring) × (pop_nowait r ≡ ok (m, r'))
        × Holds r' rest)
      ⊎ ((q ≡ []) × (pop_nowait r ≡ err ring_empty))
unfolding pop_nowait
pop_nowait-Holds r [] h =
    let zero_there : r.memory (slot_offset r.capacity r.slot_size r.read_idx) ≡ 0 =
      ap (λ (i : ℕ). r.memory (slot_offset r.capacity r.slot_size i)) (omega (arith, h.cursors))
      ∙ Free-here r.capacity r.slot_size r.memory r.write_idx (r.capacity - 0)
          (omega (arith, h.some_slots)) h.free in
    inr (refl, rw (slot_ok r r.read_idx h.some_slots, zero_there) refl)
pop_nowait-Holds r (m ∷ q) h =
    let here = h.stored.0 in
    let off : ℕ = slot_offset r.capacity r.slot_size r.read_idx in
    let size : from_be 0 (read 4 (off + 1) r.memory) ≡ length m =
      ap (from_be 0) here.size_there ∙ from_be-be 4 (length m) here.small in
    inl (
      m,
      q,
      refl,
      after_pop r,
      rw (slot_ok r r.read_idx h.some_slots, here.used, size, here.data_there) refl,
      after_pop-Holds r m q h,
    )
