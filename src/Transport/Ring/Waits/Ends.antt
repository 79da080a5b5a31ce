-- ===== src/Transport/Ring/Waits/Ends.antt =====
-- aicl/transport/shared_memory_ring.py: `push` and `pop` end once the clock is late.
use aicl.Common.{
  Bool, List, [], false, if◌then◌else◌, inl, inr, leb, length, ltb, lt→ltb, not, true, ℕ, ◌+◌, ◌<◌,
  ◌==◌, ◌^◌, ◌∷◌, ◌≢◌, ◌⊎◌,
}
use aicl.Bin.Streaming.{start}
use aicl.Py.Result.{
  Exc, Result, err, guard, out_of_fuel, ring_empty, ring_full, struct_error, timeout_error,
  value_error,
}
use aicl.Py.Result.Ensures.{Ensures, Ensures-bind, Ensures-if, holds, raises}
use aicl.Py.Struct.{Bytes}
use aicl.Transport.Ring.{Ring, pop_nowait, push_nowait, slot}
use aicl.Transport.Ring.Waits.{consume, is_drained, is_full, pop, pop_by, produce, push, push_by}

-- Some reading of the clock is past the deadline.
abbrev pub Late : {A : Type 0} → ℕ → List (ℕ × A) → Type 0
Late deadline [] = ⊥
Late deadline ((now, a) ∷ rounds) = (deadline < now) ⊎ Late deadline rounds

guard_total : (b : Bool) (e : Exc) → e ≢ out_of_fuel → Ensures (λ u. Unit {0}) (guard b e)
guard_total true e n = holds tt
guard_total false e n = raises n

slot_total : (r : Ring) (idx : ℕ) → Ensures (λ off. Unit {0}) (slot r idx)
unfolding slot
slot_total r idx = Ensures-if (r.capacity == 0) (raises (λ e. cc)) (holds tt)

push_nowait_total : (m : Bytes) (r : Ring) → Ensures (λ s. Unit {0}) (push_nowait m r)
unfolding push_nowait
push_nowait_total m r =
    Ensures-bind (guard_total (leb (length m + 5) r.slot_size) value_error (λ e. cc)) (λ _ _.
      Ensures-bind (slot_total r r.write_idx) (λ off _.
        Ensures-bind (guard_total (not (r.memory off == 1)) ring_full (λ e. cc)) (λ _ _.
          Ensures-bind (guard_total (ltb (length m) (2 ^ 32)) struct_error (λ e. cc))
            (λ _ _. holds tt))))

pop_nowait_total : (r : Ring) → Ensures (λ p. Unit {0}) (pop_nowait r)
unfolding pop_nowait
pop_nowait_total r = Ensures-bind (slot_total r r.read_idx) (λ off _.
    Ensures-bind (guard_total (not (r.memory off == 0)) ring_empty (λ e. cc)) (λ _ _. holds tt))

-- One round that ends, or goes on with less.
round_total :
    {A : Type 0} (caught : Bool) (deadline now : ℕ) (retried tried : Result A)
    → (deadline < now) ⊎ Ensures (λ a. Unit {0}) retried
    → Ensures (λ a. Unit {0}) tried
    → Ensures
        (λ a. Unit {0})
        (if caught then (if ltb deadline now then err timeout_error else retried) else tried)
round_total false deadline now retried tried h k = k
round_total true deadline now retried tried (inl late) k =
    rw (lt→ltb deadline now late) (raises (λ e. cc))
round_total true deadline now retried tried (inr ends) k =
    Ensures-if (ltb deadline now) (raises (λ e. cc)) ends

push_by_ends :
    (deadline : ℕ) (rounds : List (ℕ × ℕ)) (m : Bytes) (r : Ring)
    → Late deadline rounds
    → Ensures (λ s. Unit {0}) (push_by deadline rounds m r)
unfolding push_by
push_by_ends deadline [] m r late = absurd late
push_by_ends deadline ((now, n) ∷ rounds) m r (inl late) =
    round_total (is_full (push_nowait m r)) deadline now (push_by deadline rounds m (consume n r))
      (push_nowait m r) (inl late) (push_nowait_total m r)
push_by_ends deadline ((now, n) ∷ rounds) m r (inr late) =
    round_total (is_full (push_nowait m r)) deadline now (push_by deadline rounds m (consume n r))
      (push_nowait m r) (inr (push_by_ends deadline rounds m (consume n r) late))
      (push_nowait_total m r)

pop_by_ends :
    (deadline : ℕ) (rounds : List (ℕ × List Bytes)) (r : Ring)
    → Late deadline rounds
    → Ensures (λ p. Unit {0}) (pop_by deadline rounds r)
unfolding pop_by
pop_by_ends deadline [] r late = absurd late
pop_by_ends deadline ((now, ms) ∷ rounds) r (inl late) =
    round_total (is_drained (pop_nowait r)) deadline now (pop_by deadline rounds (produce ms r))
      (pop_nowait r) (inl late) (pop_nowait_total r)
pop_by_ends deadline ((now, ms) ∷ rounds) r (inr late) =
    round_total (is_drained (pop_nowait r)) deadline now (pop_by deadline rounds (produce ms r))
      (pop_nowait r) (inr (pop_by_ends deadline rounds (produce ms r) late)) (pop_nowait_total r)

-- On every ring and whatever the other end does, `push` and `pop` return or raise an exception of the
-- code as soon as a reading of the clock is past the deadline.
pub waits_end :
    (start timeout : ℕ) (takes : List (ℕ × ℕ)) (gives : List (ℕ × List Bytes)) (m : Bytes)
    (r : Ring)
    → Late (start + timeout) takes
    → Late (start + timeout) gives
    → Ensures (λ s. Unit {0}) (push start timeout takes m r)
      × Ensures (λ p. Unit {0}) (pop start timeout gives r)
unfolding push pop
waits_end start timeout takes gives m r h k =
    (push_by_ends (start + timeout) takes m r h, pop_by_ends (start + timeout) gives r k)
