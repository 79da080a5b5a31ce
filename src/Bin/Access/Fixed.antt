-- ===== src/Bin/Access/Fixed.antt =====
-- aicl/bin/codec_packet.py and aicl/bin/codec_view.py: the values of fixed size are read back.
use aicl.Common.{
  Bool, [], ap, append-nil, arith, false, length, length-append, le→ltb, lt→ltb, pos, refl, subst,
  sym, take-append, ℕ, ℤ, ◌++◌, ◌+◌, ◌∙◌, ◌∷◌, ◌≡◌,
}
use aicl.Bin.Access.{int_at, read_chunk, read_qos}
use aicl.Bin.Access.Infos.{read_backpressure}
use aicl.Bin.Packet.{pack_backpressure, pack_chunk, pack_qos}
use aicl.Bin.Types.{Backpressure, ChunkInfo, Qos}
use aicl.Bin.Types.Laws.{pack_byte}
use aicl.Py.Ints.{pack_int}
use aicl.Py.Ints.Laws.{unpack_int-pack_int}
use aicl.Py.Result.{>>=-eq-ok, ok, ok-injective}
use aicl.Py.Struct.{Bytes, slice-skip}
use native.Mathlib.Decide.{dec_lt}

pub int_at-skip :
    (s : Bool) (w j k i : ℕ) (xs ys : Bytes)
    → length xs ≡ k
    → j ≡ k + i
    → int_at s w j (xs ++ ys) ≡ int_at s w i ys
unfolding int_at
int_at-skip s w j k i xs ys h e = elim (dec_lt (length ys) (i + w)) [
  | yes short ↦ rw (
    lt→ltb (length ys) (i + w) short,
    lt→ltb (length (xs ++ ys)) (j + w) (omega (arith, length-append xs ys)),
  )
  | no long ↦ rw (
    le→ltb (length ys) (i + w) (omega arith),
    le→ltb (length (xs ++ ys)) (j + w) (omega (arith, length-append xs ys)),
    slice-skip j k i w xs ys h e,
  )
]

pub int_at-pack_int :
    (s : Bool) (w : ℕ) (z : ℤ) {bs : Bytes} (rest : Bytes)
    → pack_int s w z ≡ ok bs
    → int_at s w 0 (bs ++ rest) ≡ ok z
unfolding int_at
int_at-pack_int s w z {bs} rest e =
    let (back, size, _) = unpack_int-pack_int s w z e in
    rw (
      le→ltb (length (bs ++ rest)) (0 + w) (omega (arith, length-append bs rest)),
      take-append w bs rest size,
      back,
    )

-- The last integer of a value.
pub int_at-last :
    (s : Bool) (w : ℕ) (z : ℤ) {bs : Bytes} → pack_int s w z ≡ ok bs → int_at s w 0 bs ≡ ok z
int_at-last s w z {bs} e = ap (int_at s w 0) (sym (append-nil bs)) ∙ int_at-pack_int s w z [] e

-- An integer behind `k` bytes, with one behind it, and the one behind both.
pub int_at-next :
    (s : Bool) (w j k i : ℕ) (z : ℤ) {bs : Bytes} (rest : Bytes)
    → pack_int s w z ≡ ok bs
    → j ≡ w + i
    → int_at s k j (bs ++ rest) ≡ int_at s k i rest
int_at-next s w j k i z {bs} rest e h =
    int_at-skip s k j w i bs rest (let (_, size, _) = unpack_int-pack_int s w z e in size) h

-- One packed byte before the rest.
pub front_byte : {a r r' : Bytes} {n : ℕ} → a ≡ n ∷ [] → r ≡ r' → a ++ r ≡ n ∷ r'
front_byte {a} {r} {r'} {n} h k = rw (h, k) refl

-- Two integers of four bytes behind `k` bytes.
pub two_ints :
    (k : ℕ) (xs : Bytes) (y z : ℤ) {e f : Bytes}
    → length xs ≡ k
    → pack_int false 4 y ≡ ok e
    → pack_int false 4 z ≡ ok f
    → (int_at false 4 k (xs ++ (e ++ f)) ≡ ok y)
      × (int_at false 4 (k + 4) (xs ++ (e ++ f)) ≡ ok z)
      × (length (xs ++ (e ++ f)) ≡ k + 8)
two_ints k xs y z {e} {f} size pe pf =
    let (_, size_e, _) = unpack_int-pack_int false 4 y pe in
    let (_, size_f, _) = unpack_int-pack_int false 4 z pf in
    (
      int_at-skip false 4 k k 0 xs (e ++ f) size (omega arith) ∙ int_at-pack_int false 4 y f pe,
      int_at-skip false 4 (k + 4) k 4 xs (e ++ f) size refl
          ∙ int_at-next false 4 4 4 0 y f pe refl
          ∙ int_at-last false 4 z pf,
      omega (arith, length-append xs (e ++ f), length-append e f),
    )

qos_bytes :
    (q : Qos) (a b c d : ℕ) {e f : Bytes}
    → q.priority_class ≡ pos a
    → q.reliability ≡ pos b
    → q.ordering ≡ pos c
    → q.delivery_mode ≡ pos d
    → pack_int false 4 q.max_retries ≡ ok e
    → pack_int false 4 q.retry_delay_ms ≡ ok f
    → (read_qos (a ∷ b ∷ c ∷ d ∷ (e ++ f)) ≡ ok q) × (length (a ∷ b ∷ c ∷ d ∷ (e ++ f)) ≡ 12)
unfolding read_qos
qos_bytes q a b c d {e} {f} za zb zc zd pe pf =
    let (retries, delay, size) =
      two_ints 4 (a ∷ b ∷ c ∷ d ∷ []) q.max_retries q.retry_delay_ms refl pe pf in
    (rw (retries, delay, ← za, ← zb, ← zc, ← zd) refl, size)

pub read_qos-pack_qos :
    (q : Qos) {bs : Bytes} → pack_qos q ≡ ok bs → (read_qos bs ≡ ok q) × (length bs ≡ 12)
unfolding pack_qos
read_qos-pack_qos q {bs} e0 =
    let (a, pa, e1) = >>=-eq-ok (pack_int false 1 q.priority_class) _ e0 in
    let (b, pb, e2) = >>=-eq-ok (pack_int false 1 q.reliability) _ e1 in
    let (c, pc, e3) = >>=-eq-ok (pack_int false 1 q.ordering) _ e2 in
    let (d, pd, e4) = >>=-eq-ok (pack_int false 1 q.delivery_mode) _ e3 in
    let (e, pe, e5) = >>=-eq-ok (pack_int false 4 q.max_retries) _ e4 in
    let (f, pf, e6) = >>=-eq-ok (pack_int false 4 q.retry_delay_ms) _ e5 in
    let (na, za, ba) = pack_byte q.priority_class pa in
    let (nb, zb, bb) = pack_byte q.reliability pb in
    let (nc, zc, bc) = pack_byte q.ordering pc in
    let (nd, zd, bd) = pack_byte q.delivery_mode pd in
    subst (λ (v : Bytes). (read_qos v ≡ ok q) × (length v ≡ 12))
      (sym (front_byte ba (front_byte bb (front_byte bc (front_byte bd refl)))) ∙ ok-injective e6)
      (qos_bytes q na nb nc nd za zb zc zd pe pf)

chunk_bytes :
    (c : ChunkInfo) (a b : ℕ) {d e f : Bytes}
    → c.total_chunks ≡ pos a
    → c.chunk_index ≡ pos b
    → pack_int false 4 c.original_size ≡ ok d
    → pack_int false 4 c.chunk_offset ≡ ok e
    → pack_int false 4 c.chunk_size ≡ ok f
    → (read_chunk (a ∷ b ∷ (d ++ (e ++ f))) ≡ ok c) × (length (a ∷ b ∷ (d ++ (e ++ f))) ≡ 14)
unfolding read_chunk
chunk_bytes c a b {d} {e} {f} za zb pd pe pf =
    let (_, size_d, _) = unpack_int-pack_int false 4 c.original_size pd in
    let original : int_at false 4 2 (a ∷ b ∷ (d ++ (e ++ f))) ≡ ok c.original_size =
      int_at-skip false 4 2 2 0 (a ∷ b ∷ []) (d ++ (e ++ f)) refl refl
      ∙ int_at-pack_int false 4 c.original_size (e ++ f) pd in
    let (offset, size, long) =
      two_ints 6 (a ∷ b ∷ d) c.chunk_offset c.chunk_size (omega (arith, size_d)) pe pf in
    (rw (original, offset, size, ← za, ← zb) refl, long)

pub read_chunk-pack_chunk :
    (c : ChunkInfo) {bs : Bytes} → pack_chunk c ≡ ok bs → (read_chunk bs ≡ ok c) × (length bs ≡ 14)
unfolding pack_chunk
read_chunk-pack_chunk c {bs} e0 =
    let (a, pa, e1) = >>=-eq-ok (pack_int false 1 c.total_chunks) _ e0 in
    let (b, pb, e2) = >>=-eq-ok (pack_int false 1 c.chunk_index) _ e1 in
    let (d, pd, e3) = >>=-eq-ok (pack_int false 4 c.original_size) _ e2 in
    let (e, pe, e4) = >>=-eq-ok (pack_int false 4 c.chunk_offset) _ e3 in
    let (f, pf, e5) = >>=-eq-ok (pack_int false 4 c.chunk_size) _ e4 in
    let (na, za, ba) = pack_byte c.total_chunks pa in
    let (nb, zb, bb) = pack_byte c.chunk_index pb in
    subst (λ (v : Bytes). (read_chunk v ≡ ok c) × (length v ≡ 14))
      (sym (front_byte ba (front_byte bb refl)) ∙ ok-injective e5)
      (chunk_bytes c na nb za zb pd pe pf)

backpressure_bytes :
    (p : Backpressure) {a b c d : Bytes}
    → pack_int false 4 p.queue_depth ≡ ok a
    → pack_int false 4 p.max_queue ≡ ok b
    → pack_int false 2 p.drop_reason ≡ ok c
    → pack_int false 2 p.retry_after_ms ≡ ok d
    → (read_backpressure (a ++ (b ++ (c ++ d))) ≡ ok p) × (length (a ++ (b ++ (c ++ d))) ≡ 12)
unfolding read_backpressure
backpressure_bytes p {a} {b} {c} {d} pa pb pc pd =
    let (_, size_a, _) = unpack_int-pack_int false 4 p.queue_depth pa in
    let (_, size_b, _) = unpack_int-pack_int false 4 p.max_queue pb in
    let (_, size_c, _) = unpack_int-pack_int false 2 p.drop_reason pc in
    let (_, size_d, _) = unpack_int-pack_int false 2 p.retry_after_ms pd in
    let rest : Bytes = b ++ (c ++ d) in
    let most : int_at false 4 4 (a ++ rest) ≡ ok p.max_queue =
      int_at-next false 4 4 4 0 p.queue_depth rest pa refl
      ∙ int_at-pack_int false 4 p.max_queue (c ++ d) pb in
    let reason : int_at false 2 8 (a ++ rest) ≡ ok p.drop_reason =
      int_at-next false 4 8 2 4 p.queue_depth rest pa refl
      ∙ int_at-next false 4 4 2 0 p.max_queue (c ++ d) pb refl
      ∙ int_at-pack_int false 2 p.drop_reason d pc in
    let retry : int_at false 2 10 (a ++ rest) ≡ ok p.retry_after_ms =
      int_at-next false 4 10 2 6 p.queue_depth rest pa refl
      ∙ int_at-next false 4 6 2 2 p.max_queue (c ++ d) pb refl
      ∙ int_at-next false 2 2 2 0 p.drop_reason d pc refl
      ∙ int_at-last false 2 p.retry_after_ms pd in
    (
      rw (int_at-pack_int false 4 p.queue_depth rest pa, most, reason, retry) refl,
      omega (arith, length-append a rest, length-append b (c ++ d), length-append c d),
    )

pub read_backpressure-pack_backpressure :
    (p : Backpressure) {bs : Bytes}
    → pack_backpressure p ≡ ok bs
    → (read_backpressure bs ≡ ok p) × (length bs ≡ 12)
unfolding pack_backpressure
read_backpressure-pack_backpressure p {bs} e0 =
    let (a, pa, e1) = >>=-eq-ok (pack_int false 4 p.queue_depth) _ e0 in
    let (b, pb, e2) = >>=-eq-ok (pack_int false 4 p.max_queue) _ e1 in
    let (c, pc, e3) = >>=-eq-ok (pack_int false 2 p.drop_reason) _ e2 in
    let (d, pd, e4) = >>=-eq-ok (pack_int false 2 p.retry_after_ms) _ e3 in
    subst (λ (v : Bytes). (read_backpressure v ≡ ok p) × (length v ≡ 12)) (ok-injective e4)
      (backpressure_bytes p pa pb pc pd)
