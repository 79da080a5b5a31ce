-- ===== src/Transport/Ring/Queue.antt =====
-- aicl/transport/shared_memory_ring.py: the ring is a queue of byte strings of bounded length.
use aicl.Common.{
  List, [], ap, arith, length, subst, suc, zero, ℕ, ◌++◌, ◌+◌, ◌-◌, ◌<◌, ◌∙◌, ◌∷◌, ◌≡◌, ◌≢◌, ◌≤◌,
  ◌⊎◌,
}
use aicl.Py.Struct.{Bytes}
use aicl.Transport.Memory.{Memory}
use aicl.Transport.Ring.{Ring, slot_offset}
use aicl.Transport.Ring.Slots.{InSlot, InSlot-agree, slots-apart}

-- The messages from index `idx` on, and `n` free slots from there.
abbrev pub Stored : ℕ → ℕ → Memory → ℕ → List Bytes → Type 0
Stored c s mem idx [] = Unit {0}
Stored c s mem idx (m ∷ q) = InSlot s mem (slot_offset c s idx) m × Stored c s mem (idx + 1) q

abbrev pub Free : ℕ → ℕ → Memory → ℕ → ℕ → Type 0
Free c s mem idx zero = Unit {0}
Free c s mem idx (suc n) = (mem (slot_offset c s idx) ≡ 0) × Free c s mem (idx + 1) n

-- The ring holds the messages of a queue, the oldest first, in the slots from the consumer's cursor
-- to the producer's, and all other slots are free.
pub record Holds (r : Ring) (q : List Bytes) : Type 0 where
  pub some_slots : 0 < r.capacity
  pub slot_room : 5 ≤ r.slot_size
  pub cursors : r.write_idx ≡ r.read_idx + length q
  pub few : length q ≤ r.capacity
  pub stored : Stored r.capacity r.slot_size r.memory r.read_idx q
  pub free : Free r.capacity r.slot_size r.memory r.write_idx (r.capacity - length q)

-- A change inside slot `w` leaves the messages of other slots alone.
pub Stored-agree :
    (c s w : ℕ) (mem mem' : Memory) (idx : ℕ) (q : List Bytes)
    → ((x : ℕ) → (x < slot_offset c s w) ⊎ (slot_offset c s w + s ≤ x) → mem' x ≡ mem x)
    → ((i : ℕ) → idx ≤ i → i < idx + length q → (i ≢ w) × (i < w + c) × (w < i + c))
    → Stored c s mem idx q
    → Stored c s mem' idx q
Stored-agree c s w mem mem' idx [] same apart h = tt
Stored-agree c s w mem mem' idx (m ∷ q) same apart h =
    let (n, lo, hi) = apart idx (omega arith) (omega arith) in
    let off : ℕ = slot_offset c s idx in
    let away = slots-apart c s idx w n lo hi in
    (
      InSlot-agree s mem mem' off m (λ x from to. same x (ground arith)) h.0,
      Stored-agree c s w mem mem' (idx + 1) q same
          (λ i from to. apart i (omega arith) (omega arith)) h.1,
    )

pub Free-agree :
    (c s w : ℕ) (mem mem' : Memory) (idx n : ℕ)
    → 0 < s
    → ((x : ℕ) → (x < slot_offset c s w) ⊎ (slot_offset c s w + s ≤ x) → mem' x ≡ mem x)
    → ((i : ℕ) → idx ≤ i → i < idx + n → (i ≢ w) × (i < w + c) × (w < i + c))
    → Free c s mem idx n
    → Free c s mem' idx n
Free-agree c s w mem mem' idx zero room same apart h = tt
Free-agree c s w mem mem' idx (suc n) room same apart h =
    let (ne, lo, hi) = apart idx (omega arith) (omega arith) in
    let away = slots-apart c s idx w ne lo hi in
    (
      same (slot_offset c s idx) (ground arith) ∙ h.0,
      Free-agree c s w mem mem' (idx + 1) n room same
          (λ i from to. apart i (omega arith) (omega arith)) h.1,
    )

pub Stored-snoc :
    (c s : ℕ) (mem : Memory) (idx : ℕ) (q : List Bytes) (m : Bytes)
    → Stored c s mem idx q
    → InSlot s mem (slot_offset c s (idx + length q)) m
    → Stored c s mem idx (q ++ (m ∷ []))
Stored-snoc c s mem idx [] m h k =
    (subst (λ (i : ℕ). InSlot s mem (slot_offset c s i) m) (omega arith) k, tt)
Stored-snoc c s mem idx (a ∷ q) m h k = (
  h.0,
  Stored-snoc c s mem (idx + 1) q m h.1
      (subst (λ (i : ℕ). InSlot s mem (slot_offset c s i) m) (omega arith) k),
)

pub Free-snoc :
    (c s : ℕ) (mem : Memory) (idx n : ℕ)
    → Free c s mem idx n
    → mem (slot_offset c s (idx + n)) ≡ 0
    → Free c s mem idx (suc n)
Free-snoc c s mem idx zero h k = (ap (λ (i : ℕ). mem (slot_offset c s i)) (omega arith) ∙ k, tt)
Free-snoc c s mem idx (suc n) h k = (
  h.0,
  Free-snoc c s mem (idx + 1) n h.1 (ap (λ (i : ℕ). mem (slot_offset c s i)) (omega arith) ∙ k),
)
