-- ===== src/Transport/Ring.antt =====
-- aicl/transport/shared_memory_ring.py: the ring in shared memory, with both ends' private cursors.
pub mod Slots
pub mod Queue
pub mod Refine
pub mod Create
pub mod Trace
pub mod Waits
use aicl.Common.{
  [], if◌then◌else◌, leb, length, ltb, not, same_list, suc, zero, ℕ, ◌%◌, ◌*◌, ◌++◌, ◌+◌, ◌==◌, ◌^◌,
  ◌∷◌,
}
use aicl.Py.Result.{
  Result, err, guard, ok, ring_empty, ring_full, struct_error, value_error, zero_division, ◌>>=◌,
  ◌>>◌,
}
use aicl.Py.Struct.{Bytes, be, from_be}
use aicl.Transport.Memory.{Memory, put, read, write}

-- `_HEADER_SIZE`, the size of ">4sQQ".
abbrev pub ring_header_size : ℕ
ring_header_size = 20

abbrev pub ring_magic : Bytes
ring_magic = 0x53 ∷ 0x48 ∷ 0x4D ∷ 0x52 ∷ []

-- The memory with the producer's and the consumer's end.
pub record Ring : Type 0 where
  pub memory : Memory
  pub capacity : ℕ
  pub slot_size : ℕ
  pub write_idx : ℕ
  pub read_idx : ℕ

-- `_slot_offset`, for a capacity above 0.
unfoldable pub slot_offset : ℕ → ℕ → ℕ → ℕ
slot_offset capacity slot_size idx = ring_header_size + idx % capacity * slot_size

-- `_slot`, which divides by the capacity.
unfoldable pub slot : Ring → ℕ → Result ℕ
slot r idx =
    if r.capacity == 0 then err zero_division else ok (slot_offset r.capacity r.slot_size idx)

-- `for i in range(capacity)` of `create`, from the last slot down.
unfoldable pub clear_slots : ℕ → ℕ → ℕ → Memory → Memory
clear_slots capacity slot_size zero mem = mem
clear_slots capacity slot_size (suc n) mem =
    put (slot_offset capacity slot_size n) 0 (clear_slots capacity slot_size n mem)

-- `create` on a new segment of the system's, whatever it holds; both ends at the first slot.
unfoldable pub create : ℕ → ℕ → Memory → Result Ring
unfolding clear_slots
create capacity slot_size segment = do
  guard (ltb capacity (2 ^ 64)) struct_error
  guard (ltb slot_size (2 ^ 64)) struct_error
  let header = ring_magic ++ (be 8 capacity ++ be 8 slot_size)
  ok (record {
    memory = clear_slots capacity slot_size capacity (write 0 header segment);
    capacity = capacity;
    slot_size = slot_size;
    write_idx = 0;
    read_idx = 0;
  })

-- `attach` behind the wait for the segment: the fields that the header holds.
unfoldable pub attach : Memory → Result (ℕ × ℕ)
attach mem = do
  guard (same_list (read 4 0 mem) ring_magic) value_error
  ok (from_be 0 (read 8 4 mem), from_be 0 (read 8 12 mem))

unfoldable pub push_nowait : Bytes → Ring → Result Ring
unfolding slot
push_nowait data_bytes r = do
  guard (leb (length data_bytes + 5) r.slot_size) value_error
  off ← slot r r.write_idx
  guard (not (r.memory off == 1)) ring_full
  guard (ltb (length data_bytes) (2 ^ 32)) struct_error
  let sized = write (off + 1) (be 4 (length data_bytes)) r.memory
  ok (record {
    memory = put off 1 (write (off + 5) data_bytes sized);
    capacity = r.capacity;
    slot_size = r.slot_size;
    write_idx = r.write_idx + 1;
    read_idx = r.read_idx;
  })

unfoldable pub pop_nowait : Ring → Result (Bytes × Ring)
unfolding slot
pop_nowait r = do
  off ← slot r r.read_idx
  guard (not (r.memory off == 0)) ring_empty
  let size = from_be 0 (read 4 (off + 1) r.memory)
  ok (
    read size (off + 5) r.memory,
    record {
      memory = put off 0 r.memory;
      capacity = r.capacity;
      slot_size = r.slot_size;
      write_idx = r.write_idx;
      read_idx = r.read_idx + 1;
    },
  )
