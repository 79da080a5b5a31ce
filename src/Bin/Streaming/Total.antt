-- ===== src/Bin/Streaming/Total.antt =====
-- aicl/bin/streaming.py: the loop of `feed` ends.
use aicl.Common.{
  Option, [], arith, leb, length, length-drop, le→ltb, ltb, lt→ltb, none, refl, some, suc, take,
  zero, ℕ, ◌&&◌, ◌++◌, ◌<◌, ◌∷◌, ◌≡◌, ◌≢◌, ◌≤◌,
}
use aicl.Bin.Access.{byte_at}
use aicl.Bin.Codec.Total.{Fine, decode-Fine, unpack_at-Fine}
use aicl.Bin.Header.{header_size, validate_header}
use aicl.Bin.Streaming.{
  Next, Scan, StreamingDecoder, again, feed, find_magic, finish, go_on, packet_end, scan_find,
  scan_header, scan_loop, scan_round, start, stop,
}
use aicl.Py.Result.{Result, err, ok, out_of_fuel}
use aicl.Py.Result.Ensures.{
  Ensures, Ensures-bind, Ensures-if, holds, map_ok-Ensures, raises, weaken,
}
use aicl.Py.Struct.{Bytes}
use native.Mathlib.Decide.{dec_lt}

byte_at-Fine : (i : ℕ) (src : Bytes) → Fine (byte_at i src)
byte_at-Fine i [] = raises (λ e. cc)
byte_at-Fine zero (b ∷ src) = holds tt
byte_at-Fine (suc i) (b ∷ src) = byte_at-Fine i src

packet_end-Ensures : (src : Bytes) → Ensures (λ n. 56 ≤ n) (packet_end src)
unfolding packet_end
packet_end-Ensures src = Ensures-bind (unpack_at-Fine 4 44 src) λ size _.
    Ensures-bind (byte_at-Fine 6 src)
      λ high _. Ensures-bind (byte_at-Fine 7 src) λ low _. holds (ground arith)

-- The next round has less to look at.
abbrev Shrinks : ℕ → Next → Type 0
Shrinks n (stop s) = Unit {0}
Shrinks n (again rest s) = length rest < n

scan_header-Ensures :
    (r : Result (Unit {0})) (src : Bytes) (sofar : Scan)
    → 56 ≤ length src
    → Ensures (Shrinks (length src)) (scan_header r src sofar)
unfolding scan_header
scan_header-Ensures (err e) src sofar room = holds (omega (arith, length-drop 1 src))
scan_header-Ensures (ok _) src sofar room = Ensures-bind (packet_end-Ensures src) λ n far.
    Ensures-if (ltb (length src) n) (holds tt)
      (map_ok-Ensures _ (decode-Fine (take n src)) (λ view _. omega (arith, length-drop n src)))

pub find_magic_shorter : (src : Bytes) {c : Bytes} → find_magic src ≡ some c → length c ≤ length src
unfolding find_magic
find_magic_shorter [] e = cc
find_magic_shorter (b ∷ src) {c} e = ground (arith, find_magic_shorter src {c = c})

Shrinks-more : {k m : ℕ} (n : Next) → Shrinks k n → k ≤ m → Shrinks m n
Shrinks-more (stop s) h le = tt
Shrinks-more (again rest s) h le = omega arith

scan_find-Ensures :
    (n : ℕ) (found : Option Bytes) (sofar : Scan)
    → ((c : Bytes) → found ≡ some c → length c ≤ n)
    → Ensures (Shrinks n) (scan_find found sofar)
unfolding scan_find
scan_find-Ensures n none sofar h = holds tt
scan_find-Ensures n (some c) sofar h = elim (dec_lt (length c) 56) [
  | yes short ↦ rw (lt→ltb (length c) 56 short) (holds tt)
  | no long ↦ rw (le→ltb (length c) 56 (omega arith)) (
      weaken (λ next k. Shrinks-more next k (h c refl))
        (scan_header-Ensures (validate_header (take 56 c)) c sofar (omega arith)))
]

scan_round-Ensures :
    (most : ℕ) (src : Bytes) (sofar : Scan)
    → Ensures (Shrinks (length src)) (scan_round most src sofar)
unfolding scan_round
scan_round-Ensures most src sofar =
    Ensures-if (leb header_size (length src) && ltb (length sofar.results) most)
      (scan_find-Ensures (length src) (find_magic src) sofar (λ c is. find_magic_shorter src is))
      (holds tt)

go_on-Fine :
    (loop : Bytes → Scan → Result Scan) (n : ℕ) (next : Next)
    → ((rest : Bytes) (s : Scan) → length rest < n → Fine (loop rest s))
    → Shrinks n next
    → Fine (go_on loop next)
go_on-Fine loop n (stop s) h k = holds tt
go_on-Fine loop n (again rest s) h k = h rest s k

scan_loop-Fine :
    (fuel most : ℕ) (src : Bytes) (sofar : Scan)
    → length src < fuel
    → Fine (scan_loop fuel most src sofar)
unfolding scan_loop
scan_loop-Fine zero most src sofar h = absurd (omega arith)
scan_loop-Fine (suc fuel) most src sofar h =
    Ensures-bind (scan_round-Ensures most src sofar) λ next shrinks.
      go_on-Fine (scan_loop fuel most) (length src) next
        (λ rest s less. scan_loop-Fine fuel most rest s (omega arith)) shrinks

finish-Fine :
    (most : ℕ) (buf : Bytes) (r : Result Scan) → Fine r → (finish most buf r).0 ≢ err out_of_fuel
finish-Fine most buf (ok s) h = λ e. cc
finish-Fine most buf (err x) (raises n) = λ e. n (cc)

-- `feed` ends on every buffer and every chunk of data: its result is a list of views or an exception
-- of the code, since the fuel of the model, the number of bytes and one more, is enough.
pub feed_total :
    (dec : StreamingDecoder) (data_bytes : Bytes) → (feed dec data_bytes).0 ≢ err out_of_fuel
unfolding feed
feed_total dec data_bytes =
    let buf : Bytes = dec.buffer ++ data_bytes in
    finish-Fine dec.max_per_feed buf (scan_loop (suc (length buf)) dec.max_per_feed buf start)
      (scan_loop-Fine (suc (length buf)) dec.max_per_feed buf start (omega arith))
