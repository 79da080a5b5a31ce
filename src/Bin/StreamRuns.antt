-- ===== src/Bin/StreamRuns.antt =====
-- Concrete runs of the view's properties and of aicl/bin/streaming.py, and theorems at concrete inputs.
use aicl.Common.{
  All, List, [], ap, append-nil, arith, drop, length, pos, refl, sym, take, take-append-drop, true,
  ◌++◌, ◌∙◌, ◌∷◌, ◌≡◌, ◌≢◌, ◌≤◌,
}
use aicl.Bin.Access.{decode_symbols, read_blob}
use aicl.Bin.Access.Symbols.{decode_symbols_total}
use aicl.Bin.Codec.{decode}
use aicl.Bin.Codec.RoundTrip.{Carries, wire_flags}
use aicl.Bin.Codec.Total.{decode_total}
use aicl.Bin.Operands.{encode_symbol}
use aicl.Bin.Operands.Fits.{Fits}
use aicl.Bin.Packet.{encode_symbols, pack_blob}
use aicl.Bin.Runs.{hello, hello-IsCore, hello_built, hello_payload, hello_sent, hello_wire}
use aicl.Bin.Streaming.{feed}
use aicl.Bin.Streaming.Chunks.{stream, views}
use aicl.Bin.Streaming.Cuts.{concat, feed_all, feed_all-stream}
use aicl.Bin.Streaming.Frames.{Frame}
use aicl.Bin.Streaming.Sent.{encode-Frame}
use aicl.Bin.Streaming.Total.{feed_total}
use aicl.Bin.Symbol.{Symbol, bool, int, kind_of, symbol}
use aicl.Bin.View.{PacketView}
use aicl.Py.Ints.{pack_int, unpack_int}
use aicl.Py.Result.{err, ok, out_of_fuel, ◌>>=◌}
use aicl.Py.Result.Ensures.{Ensures}
use aicl.Py.Struct.{Bytes, be, from_be}
use aicl.Py.Utf8.{utf8_decode, utf8_encode}

encode-Frame_example :
    (view : PacketView) × Frame hello_wire view
    × Carries hello (wire_flags hello true) hello_payload view
encode-Frame_example =
    encode-Frame hello true hello-IsCore hello_built (omega arith) hello_sent refl

hello-Frame : (view : PacketView) × Frame hello_wire view
hello-Frame =
    let (view, frame, _) =
      encode-Frame hello true hello-IsCore hello_built (omega arith) hello_sent refl in
    (view, frame)

abbrev hello_stream : List (Bytes × PacketView)
hello_stream = (hello_wire, hello-Frame.0) ∷ []

-- The stream is cut inside the header.
hello_cut : concat (take 30 hello_wire ∷ drop 30 hello_wire ∷ []) ≡ stream hello_stream
hello_cut =
    ap (λ (b : Bytes). take 30 hello_wire ++ b) (append-nil (drop 30 hello_wire))
    ∙ take-append-drop 30 hello_wire
    ∙ sym (append-nil hello_wire)

feed_all-stream_example :
    feed_all
      (record { buffer = []; max_per_feed = 256 })
      (take 30 hello_wire ∷ drop 30 hello_wire ∷ [])
    ≡ (ok (views hello_stream), record { buffer = []; max_per_feed = 256 })
feed_all-stream_example =
    feed_all-stream hello_stream 256 (take 30 hello_wire ∷ drop 30 hello_wire ∷ [])
      (hello-Frame.1, tt) (omega arith) hello_cut

feed_total_example :
    (feed (record { buffer = 0x41 ∷ []; max_per_feed = 256 }) (0x49 ∷ [])).0 ≢ err out_of_fuel
feed_total_example = feed_total (record { buffer = 0x41 ∷ []; max_per_feed = 256 }) (0x49 ∷ [])

decode_total_example : decode hello_wire ≢ err out_of_fuel
decode_total_example = decode_total hello_wire

abbrev two_symbols : List Symbol
two_symbols = symbol 0x05 (int (pos 9)) ∷ symbol 0x10 (bool true) ∷ []

two_symbols-Fits : All Fits two_symbols
unfolding kind_of
two_symbols-Fits = ((omega arith, omega arith), ((omega arith, tt), tt))

two_symbols_wrote : encode_symbols two_symbols ≡ ok (0x05 ∷ 9 ∷ 0x10 ∷ 1 ∷ [])
unfolding encode_symbols encode_symbol kind_of pack_int be
two_symbols_wrote = refl

decode_symbols_total_example : Ensures (λ ss. length ss ≤ 2) (decode_symbols (0x05 ∷ 9 ∷ []))
decode_symbols_total_example = decode_symbols_total (0x05 ∷ 9 ∷ [])

-- A reference of two bytes at offset 3 named "ab": the size comes back as 512, and each value in the
-- field before its own.
blob_back :
    (pack_blob
        (record { ref_type = pos 1; size = pos 2; offset = pos 3; identifier = 0x61 ∷ 0x62 ∷ [] })
      >>= read_blob)
    ≡ ok
        (record { ref_type = pos 1; size = 0x00 ∷ 0x03 ∷ []; offset = pos 512; identifier = pos 0 })
unfolding pack_blob read_blob utf8_encode utf8_decode pack_int be unpack_int from_be
blob_back = refl
