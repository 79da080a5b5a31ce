-- ===== src/Transport/Memory.antt =====
-- Shared memory as bytes by address, for `multiprocessing.shared_memory`.
use aicl.Common.{
  [], ap, ap₂, arith, if◌then◌else◌, inl, length, refl, suc, zero, ℕ, ◌+◌, ◌<◌, ◌==◌, ◌∙◌, ◌∷◌, ◌≡◌,
  ◌≢◌, ◌≤◌, ◌⊎◌,
}
use aicl.Py.Struct.{Bytes, slice}

abbrev pub Memory : Type 0
Memory = ℕ → ℕ

-- `buf[a] = v`
unfoldable pub put : ℕ → ℕ → Memory → Memory
put a v mem x = if x == a then v else mem x

-- `buf[a:a + len(data)] = data`
unfoldable pub write : ℕ → Bytes → Memory → Memory
write a [] mem = mem
write a (b ∷ bs) mem = write (a + 1) bs (put a b mem)

-- `bytes(buf[a:a + n])`
unfoldable pub read : ℕ → ℕ → Memory → Bytes
read zero a mem = []
read (suc n) a mem = mem a ∷ read n (a + 1) mem

pub put-same : (a v : ℕ) (mem : Memory) → put a v mem a ≡ v
unfolding put
put-same a v mem = ground arith

pub put-other : (a v : ℕ) (mem : Memory) (x : ℕ) → x ≢ a → put a v mem x ≡ mem x
unfolding put
put-other a v mem x h = ground arith

-- Outside its range a write changes nothing.
pub write-other :
    (a : ℕ) (bs : Bytes) (mem : Memory) (x : ℕ)
    → (x < a) ⊎ (a + length bs ≤ x)
    → write a bs mem x ≡ mem x
unfolding write
write-other a [] mem x h = refl
write-other a (b ∷ bs) mem x h =
    write-other (a + 1) bs (put a b mem) x (ground arith) ∙ put-other a b mem x (λ e. ground arith)

-- Reading depends on the range that is read.
pub read-agree :
    (n a : ℕ) (mem mem' : Memory)
    → ((x : ℕ) → a ≤ x → x < a + n → mem' x ≡ mem x)
    → read n a mem' ≡ read n a mem
unfolding read
read-agree zero a mem mem' h = refl
read-agree (suc n) a mem mem' h =
    ap₂ (λ (b : ℕ) (bs : Bytes). b ∷ bs) (h a (omega arith) (omega arith))
      (read-agree n (a + 1) mem mem' (λ x lo hi. h x (omega arith) (omega arith)))

pub read-write : (a : ℕ) (bs : Bytes) (mem : Memory) → read (length bs) a (write a bs mem) ≡ bs
unfolding read write
read-write a [] mem = refl
read-write a (b ∷ bs) mem =
    ap₂ (λ (c : ℕ) (cs : Bytes). c ∷ cs)
      (write-other (a + 1) bs (put a b mem) a (inl (omega arith)) ∙ put-same a b mem)
      (read-write (a + 1) bs (put a b mem))

-- A part of what is read.
pub read-slice :
    (m a i n : ℕ) (mem : Memory) → i + n ≤ m → read n (a + i) mem ≡ slice i n (read m a mem)
unfolding read
read-slice m a i zero mem h = refl
read-slice zero a i (suc n) mem h = absurd (omega arith)
read-slice (suc m) a zero (suc n) mem h =
    ap₂ (λ (b : ℕ) (bs : Bytes). b ∷ bs) (ap mem (omega arith))
      (ap (λ (k : ℕ). read n k mem) (omega arith) ∙ read-slice m (a + 1) zero n mem (omega arith))
read-slice (suc m) a (suc i) (suc n) mem h =
    ap (λ (k : ℕ). read (suc n) k mem) (omega arith)
    ∙ read-slice m (a + 1) i (suc n) mem (omega arith)
