-- ===== src/Transport/Ring/Waits/Live.antt =====
-- aicl/transport/shared_memory_ring.py: when `push` ends, and when it succeeds.
use aicl.Common.{List, suc, ℕ, ◌++◌, ◌∷◌, ◌≡◌, ◌≤◌}
use aicl.Py.Struct.{Bytes}
use aicl.Transport.Ring.{Ring}
use aicl.Transport.Ring.Queue.{Holds}

-- What the consumer leaves of a queue.
record Left (r s : Ring) (q : List Bytes) : Type 0 where
  taken : List Bytes
  rest : List Bytes
  split : q ≡ taken ++ rest
  held : Holds s rest
  capacity_same : s.capacity ≡ r.capacity
  slot_size_same : s.slot_size ≡ r.slot_size

-- The consumer takes a message before the clock passes the deadline.
pub data InTime (deadline : ℕ) : List (ℕ × ℕ) → Type 0 where
  popped :
      {now n : ℕ} {rounds : List (ℕ × ℕ)} → now ≤ deadline → InTime deadline ((now, suc n) ∷ rounds)
  waited :
      {now : ℕ} {rounds : List (ℕ × ℕ)}
      → now ≤ deadline
      → InTime deadline rounds
      → InTime deadline ((now, 0) ∷ rounds)
