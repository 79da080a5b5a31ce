-- ===== src/Transport/Ring/Trace.antt =====
-- aicl/transport/shared_memory_ring.py: runs of a producer and a consumer on a ring, in any order.
use aicl.Common.{
  List, [], ap, append-nil, append_assoc, arith, inl, inr, leb, length, ltb, not, subst, sym, ◌++◌,
  ◌+◌, ◌<◌, ◌==◌, ◌^◌, ◌∙◌, ◌∷◌, ◌≡◌, ◌≤◌,
}
use aicl.Py.Result.{>>=-eq-ok, guard, ok, ok-injective, ring_full, struct_error, value_error}
use aicl.Py.Struct.{Bytes}
use aicl.Transport.Ring.{Ring, pop_nowait, push_nowait, slot}
use aicl.Transport.Ring.Queue.{Holds}
use aicl.Transport.Ring.Refine.{pop_nowait-Holds, push_nowait-Holds}

-- Calls that succeed, from a ring to a ring, with the messages that went in and that came out.
pub data Steps : Ring → Ring → List Bytes → List Bytes → Type 0 where
  no_calls : {r : Ring} → Steps r r [] []
  push_then :
      {r r' r'' : Ring} {ins outs : List Bytes} (m : Bytes)
      → push_nowait m r ≡ ok r'
      → Steps r' r'' ins outs
      → Steps r r'' (m ∷ ins) outs
  pop_then :
      {r r' r'' : Ring} {ins outs : List Bytes} (m : Bytes)
      → pop_nowait r ≡ ok (m, r')
      → Steps r' r'' ins outs
      → Steps r r'' ins (m ∷ outs)

-- A push that succeeds had a message that a slot takes.
push_nowait_fits :
    (m : Bytes) (r : Ring) {r' : Ring}
    → push_nowait m r ≡ ok r'
    → (length m + 5 ≤ r.slot_size) × (length m < 2 ^ 32)
unfolding push_nowait
push_nowait_fits m r e =
    let (_, a, e1) = >>=-eq-ok (guard (leb (length m + 5) r.slot_size) value_error) _ e in
    let (off, _, e2) = >>=-eq-ok (slot r r.write_idx) _ e1 in
    let (_, _, e3) = >>=-eq-ok (guard (not (r.memory off == 1)) ring_full) _ e2 in
    let (_, b, _) = >>=-eq-ok (guard (ltb (length m) (2 ^ 32)) struct_error) _ e3 in
    (ground (arith, a), ground (arith, b))

-- Whatever the order of the calls of `push_nowait` and `pop_nowait` that succeed, the messages come out
-- as they went in: what was popped, followed by what the ring holds in the end, is what it held at
-- first, followed by what was pushed; and the ring holds a queue again.
pub Steps-fifo :
    {r r' : Ring} {ins outs : List Bytes} (q : List Bytes)
    → Steps r r' ins outs
    → Holds r q
    → (q' : List Bytes) × Holds r' q' × (q ++ ins ≡ outs ++ q')
Steps-fifo q no_calls h = (q, h, append-nil q)
Steps-fifo q (push_then {r} {r'} {r''} {ins} m e more) h =
    let (fits, small) = push_nowait_fits m r e in
    elim (push_nowait-Holds r q m h fits small) [
      | inl (room, s, went, held) ↦
          let same : s ≡ r' = ok-injective (sym went ∙ e) in
          let (q', held', is) =
            Steps-fifo (q ++ (m ∷ [])) more
              (subst (λ (x : Ring). Holds x (q ++ (m ∷ []))) same held) in
          (q', held', sym (append_assoc q (m ∷ []) ins) ∙ is)
      | inr (full, raised) ↦ absurd (cc)
    ]
Steps-fifo q (pop_then {r} {r'} {r''} {ins} m e more) h = elim (pop_nowait-Holds r q h) [
  | inl (n, left, is, s, went, held) ↦
      let both : (n, s) ≡ (m, r') = ok-injective (sym went ∙ e) in
      let first_is : n ≡ m = ap (λ (x : Bytes × Ring). x.0) both in
      let ring_is : s ≡ r' = ap (λ (x : Bytes × Ring). x.1) both in
      let (q', held', joined) =
        Steps-fifo left more (subst (λ (x : Ring). Holds x left) ring_is held) in
      (
        q',
        held',
        ap (λ (x : List Bytes). x ++ ins) (is ∙ ap (λ (x : Bytes). x ∷ left) first_is)
            ∙ ap (λ (x : List Bytes). m ∷ x) joined,
      )
  | inr (empty, raised) ↦ absurd (cc)
]
