-- ===== src/Transport/Ring/Waits.antt =====
-- aicl/transport/shared_memory_ring.py: `push`, `pop` and `attach`, which try again until the clock
-- passes a deadline. What happens between two tries is a list of rounds: the reading of the clock, and
-- what the other end or the system does behind it. A list that ends too soon is `out_of_fuel`.
pub mod Live
pub mod Ends
use aicl.Common.{
  Bool, List, Option, [], false, if◌then◌else◌, ltb, none, some, suc, true, zero, ℕ, ◌+◌, ◌∷◌,
}
use aicl.Bin.Streaming.{start}
use aicl.Py.Result.{Result, err, ok, out_of_fuel, ring_empty, ring_full, timeout_error}
use aicl.Py.Struct.{Bytes}
use aicl.Transport.Memory.{Memory}
use aicl.Transport.Ring.{Ring, attach, pop_nowait, push_nowait}

-- The consumer takes up to `n` messages.
unfoldable pub consume : ℕ → Ring → Ring
consume zero r = r
consume (suc n) r = elim (pop_nowait r) [ ok (m, s) ↦ consume n s | err e ↦ r ]

-- The producer offers messages, until the ring takes one no more.
unfoldable pub produce : List Bytes → Ring → Ring
produce [] r = r
produce (m ∷ ms) r = elim (push_nowait m r) [ ok s ↦ produce ms s | err e ↦ r ]

-- RingFull and RingEmpty are caught, and no other exception.
abbrev pub is_full : {A : Type 0} → Result A → Bool
is_full (err ring_full) = true
is_full _ = false

abbrev pub is_drained : {A : Type 0} → Result A → Bool
is_drained (err ring_empty) = true
is_drained _ = false

-- The loop of `push`: the rounds are readings of the clock with the number of pops behind each.
unfoldable pub push_by : ℕ → List (ℕ × ℕ) → Bytes → Ring → Result Ring
unfolding consume
push_by deadline [] m r =
    let tried = push_nowait m r in if is_full tried then err out_of_fuel else tried
push_by deadline ((now, pops) ∷ rounds) m r =
    let tried = push_nowait m r in
    let retried = push_by deadline rounds m (consume pops r) in
    if is_full tried then (if ltb deadline now then err timeout_error else retried) else tried

-- `push`, begun at `start`.
unfoldable pub push : ℕ → ℕ → List (ℕ × ℕ) → Bytes → Ring → Result Ring
unfolding push_by
push start timeout rounds m r = push_by (start + timeout) rounds m r

-- The loop of `pop`: behind each reading, the messages that are pushed.
unfoldable pub pop_by : ℕ → List (ℕ × List Bytes) → Ring → Result (Bytes × Ring)
unfolding produce
pop_by deadline [] r =
    let tried = pop_nowait r in if is_drained tried then err out_of_fuel else tried
pop_by deadline ((now, pushes) ∷ rounds) r =
    let tried = pop_nowait r in
    let retried = pop_by deadline rounds (produce pushes r) in
    if is_drained tried then (if ltb deadline now then err timeout_error else retried) else tried

-- `pop`, begun at `start`.
unfoldable pub pop : ℕ → ℕ → List (ℕ × List Bytes) → Ring → Result (Bytes × Ring)
unfolding pop_by
pop start timeout rounds r = pop_by (start + timeout) rounds r

-- The loop of `attach`: the readings, each with the segment if the system has it by then.
unfoldable pub attach_by : ℕ → List (ℕ × Option Memory) → Result (ℕ × ℕ)
attach_by deadline [] = err out_of_fuel
attach_by deadline ((now, none) ∷ rounds) =
    let retried = attach_by deadline rounds in
    if ltb now deadline then retried else err timeout_error
attach_by deadline ((now, some segment) ∷ rounds) =
    if ltb now deadline then attach segment else err timeout_error

unfoldable pub attach_wait : ℕ → ℕ → List (ℕ × Option Memory) → Result (ℕ × ℕ)
unfolding attach_by
attach_wait start retry rounds = attach_by (start + retry) rounds

-- `close`, on what the system has under the name: the owner takes the segment away, if it is there.
abbrev pub close_ring : Bool → Option Memory → Option Memory
close_ring true segment = none
close_ring false segment = segment
