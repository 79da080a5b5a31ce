-- ===== src/Bin/Streaming.antt =====
-- aicl/bin/streaming.py: the decoder of a stream of bytes.
pub mod Total
pub mod Frames
pub mod Chunks
pub mod Cuts
pub mod Sent
use aicl.Common.{
  List, Option, [], bit_and, bit_or, drop, if◌then◌else◌, leb, length, ltb, none, same_list, some,
  suc, take, zero, ℕ, ◌&&◌, ◌*◌, ◌++◌, ◌+◌, ◌==◌, ◌∷◌,
}
use aicl.Bin.Access.{byte_at}
use aicl.Bin.Codec.{decode}
use aicl.Bin.Header.{header_size, magic, validate_header}
use aicl.Bin.View.{PacketView}
use aicl.Py.Result.{Result, err, map_ok, ok, out_of_fuel, ◌>>=◌, ◌>>◌}
use aicl.Py.Struct.{Bytes, unpack_at}

pub record StreamingDecoder : Type 0 where
  pub buffer : Bytes
  pub max_per_feed : ℕ

-- `self._buf.find(b"AICL", scan)`, on the bytes from `scan` on: those from the find on.
unfoldable pub find_magic : Bytes → Option Bytes
find_magic [] = none
find_magic (b ∷ src) =
    let rest = find_magic src in if same_list (take 4 (b ∷ src)) magic then some (b ∷ src) else rest

-- The size of the packet at the front, its trailer counted where the flag is set.
unfoldable pub packet_end : Bytes → Result ℕ
packet_end src = do
  payload_length ← unpack_at 4 44 src
  high ← byte_at 6 src
  low ← byte_at 7 src
  let size = header_size + payload_length
  ok (if bit_and (bit_or (high * 256) low) 0x0100 == 0 then size else size + 4)

-- What the loop has: the results, and what stays in the buffer if something is to be deleted.
pub record Scan : Type 0 where
  pub results : List PacketView
  pub kept : Option Bytes

-- How a round ends: the loop is left, or goes on with the bytes from the new `scan` on.
pub data Next : Type 0 where
  stop : Scan → Next
  again : Bytes → Scan → Next

-- A round at the magic, with enough bytes for a header, behind `validate_header`: any exception of
-- it is caught.
unfoldable pub scan_header : Result (Unit {0}) → Bytes → Scan → Result Next
unfolding packet_end
scan_header (err e) src sofar = ok (again (drop 1 src) sofar)
scan_header (ok _) src sofar = do
  pkt_end ← packet_end src
  let incomplete = stop (record { results = sofar.results; kept = some src })
  let complete =
      map_ok
        (λ view.
          again (drop pkt_end src)
            (record { results = sofar.results ++ (view ∷ []); kept = some (drop pkt_end src) }))
        (decode (take pkt_end src))
  if ltb (length src) pkt_end then ok incomplete else complete

-- A round that looks for the magic.
unfoldable pub scan_find : Option Bytes → Scan → Result Next
unfolding scan_header
scan_find none sofar = ok (stop sofar)
scan_find (some src) sofar =
    if ltb (length src) header_size
    then ok (stop sofar)
    else scan_header (validate_header (take header_size src)) src sofar

unfoldable pub scan_round : ℕ → Bytes → Scan → Result Next
unfolding find_magic scan_find
scan_round most src sofar =
    if leb header_size (length src) && ltb (length sofar.results) most
    then scan_find (find_magic src) sofar
    else ok (stop sofar)

-- The `while` loop.
abbrev pub go_on : (Bytes → Scan → Result Scan) → Next → Result Scan
go_on loop (stop s) = ok s
go_on loop (again rest s) = loop rest s

unfoldable pub scan_loop : ℕ → ℕ → Bytes → Scan → Result Scan
unfolding scan_round
scan_loop zero most src sofar = err out_of_fuel
scan_loop (suc fuel) most src sofar = scan_round most src sofar >>= go_on (scan_loop fuel most)

abbrev pub start : Scan
start = record { results = []; kept = none }

-- `del self._buf[:…]`
abbrev pub keep : Bytes → Option Bytes → Bytes
keep buffer none = buffer
keep buffer (some rest) = rest

-- What `feed` returns or raises, and the decoder afterwards: an exception leaves the data in the
-- buffer.
abbrev pub finish : ℕ → Bytes → Result Scan → Result (List PacketView) × StreamingDecoder
finish most buf (ok s) = (ok s.results, record { buffer = keep buf s.kept; max_per_feed = most })
finish most buf (err e) = (err e, record { buffer = buf; max_per_feed = most })

unfoldable pub feed : StreamingDecoder → Bytes → Result (List PacketView) × StreamingDecoder
unfolding scan_loop
feed dec data_bytes =
    let buf = dec.buffer ++ data_bytes in
    finish dec.max_per_feed buf (scan_loop (suc (length buf)) dec.max_per_feed buf start)

abbrev pub pending : StreamingDecoder → ℕ
pending dec = length dec.buffer

abbrev pub clear : StreamingDecoder → StreamingDecoder
clear dec = record { buffer = []; max_per_feed = dec.max_per_feed }
