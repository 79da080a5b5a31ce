-- ===== src/Transport/WaitRuns.antt =====
-- Concrete runs of the loops of aicl/transport/shared_memory_ring.py, and the theorems at concrete inputs.
use aicl.Common.{List, [], arith, inl, inr, refl, ℕ, ◌∷◌, ◌≡◌}
use aicl.Py.Result.{err, timeout_error}
use aicl.Py.Result.Ensures.{Ensures}
use aicl.Py.Struct.{Bytes, be}
use aicl.Transport.Memory.{put, read, write}
use aicl.Transport.Ring.{Ring, push_nowait, slot, slot_offset}
use aicl.Transport.Ring.Waits.{consume, pop, push, push_by}
use aicl.Transport.Ring.Waits.Ends.{waits_end}

abbrev first_message : Bytes
first_message = 0x68 ∷ 0x69 ∷ []

-- A ring of one slot with a message in it.
abbrev full_ring : Ring
full_ring = record {
  memory = put 20 1 (write 25 first_message (write 21 (be 4 2) (λ x. 0)));
  capacity = 1;
  slot_size = 16;
  write_idx = 1;
  read_idx = 0;
}

-- At 101 the consumer has not moved; behind 104 it takes a message.
abbrev taking : List (ℕ × ℕ)
taking = (101, 0) ∷ (104, 1) ∷ []

-- Nobody takes a message, and the second reading is late.
never_taken : push 100 5 ((101, 0) ∷ (106, 0) ∷ []) (7 ∷ []) full_ring ≡ err timeout_error
unfolding push push_by consume push_nowait slot slot_offset put write read be
never_taken = refl

waits_end_example :
    Ensures (λ s. Unit {0}) (push 100 5 ((101, 0) ∷ (106, 0) ∷ []) (7 ∷ []) full_ring)
    × Ensures (λ p. Unit {0}) (pop 100 5 ((107, (7 ∷ []) ∷ []) ∷ []) full_ring)
waits_end_example =
    waits_end 100 5 ((101, 0) ∷ (106, 0) ∷ []) ((107, (7 ∷ []) ∷ []) ∷ []) (7 ∷ []) full_ring
      (inr (inl (omega arith))) (inl (omega arith))
