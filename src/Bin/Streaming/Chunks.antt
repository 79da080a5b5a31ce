-- ===== src/Bin/Streaming/Chunks.antt =====
-- aicl/bin/streaming.py: a stream of packets, however it is cut into chunks.
use aicl.Common.{
  All, List, [], ap, append-nil, append_assoc, ap₂, arith, length, length-append, le→ltb,
  lt→leb_false, refl, some, subst, suc, sym, zero, ℕ, ◌++◌, ◌+◌, ◌<◌, ◌∙◌, ◌∷◌, ◌≡◌, ◌≤◌,
}
use aicl.Bin.Streaming.{
  Scan, StreamingDecoder, feed, finish, go_on, keep, scan_loop, scan_round, start, stop,
}
use aicl.Bin.Streaming.Frames.{Frame, round_complete, round_incomplete, wire_size}
use aicl.Bin.View.{PacketView}
use aicl.Py.Result.{ok, ◌>>=◌}
use aicl.Py.Struct.{Bytes}
use native.Mathlib.Decide.{dec_lt}

-- The packets of a stream, each with its view.
abbrev pub Frames : List (Bytes × PacketView) → Type 0
Frames ws = All (λ w. Frame w.0 w.1) ws

abbrev pub stream : List (Bytes × PacketView) → Bytes
stream [] = []
stream (w ∷ ws) = w.0 ++ stream ws

abbrev pub views : List (Bytes × PacketView) → List PacketView
views [] = []
views (w ∷ ws) = w.1 ∷ views ws

-- What is left of a stream when no whole packet is.
pub data Part (src : Bytes) : Type 0 where
  too_few : length src < 56 → Part src
  inside_packet :
      {wire : Bytes} {view : PacketView} (frame : Frame wire view) (got : Bytes)
      → src ≡ frame.head ++ got
      → length src < length wire
      → Part src

-- A round that does nothing.
round_short :
    (most : ℕ) (src : Bytes) (sofar : Scan)
    → length src < 56
    → scan_round most src sofar ≡ ok (stop sofar)
unfolding scan_round
round_short most src sofar h = rw (lt→leb_false 56 (length src) h)

round_full :
    (most : ℕ) (src : Bytes) (sofar : Scan)
    → most ≤ length sofar.results
    → scan_round most src sofar ≡ ok (stop sofar)
unfolding scan_round
round_full most src sofar h = rw (le→ltb (length sofar.results) most h) (ground arith)

-- A loop that stops in its first round.
loop_stops :
    (fuel most : ℕ) (src : Bytes) (sofar : Scan) {s : Scan}
    → 0 < fuel
    → scan_round most src sofar ≡ ok (stop s)
    → scan_loop fuel most src sofar ≡ ok s
unfolding scan_loop
loop_stops zero most src sofar h e = absurd (omega arith)
loop_stops (suc fuel) most src sofar h e = ap (λ r. r >>= go_on (scan_loop fuel most)) e

-- The loop stops at a part of a packet and leaves it.
scan-Part :
    (fuel most : ℕ) (src : Bytes) (sofar : Scan) (buf : Bytes)
    → Part src
    → 0 < fuel
    → keep buf sofar.kept ≡ src
    → (s : Scan) × (scan_loop fuel most src sofar ≡ ok s)
      × (s.results ≡ sofar.results)
      × (keep buf s.kept ≡ src)
scan-Part fuel most src sofar buf (too_few h) some_fuel at =
    (sofar, loop_stops fuel most src sofar some_fuel (round_short most src sofar h), refl, at)
scan-Part fuel most src sofar buf (inside_packet {wire} frame got is h) some_fuel at =
    elim (dec_lt (length sofar.results) most) [
      | yes room ↦ (
        record { results = sofar.results; kept = some src },
        loop_stops fuel most src sofar some_fuel (
            subst
              (λ (v : Bytes).
                length v < length wire
                → scan_round most v sofar
                  ≡ ok (stop (record { results = sofar.results; kept = some v })))
              (sym is) (round_incomplete frame most got sofar room) h),
        refl,
        refl,
      )
      | no full ↦ (
        sofar,
        loop_stops fuel most src sofar some_fuel (round_full most src sofar (omega arith)),
        refl,
        at,
      )
    ]

scan-Frames :
    (ws : List (Bytes × PacketView)) (fuel most : ℕ) (part : Bytes) (sofar : Scan) (buf : Bytes)
    → Frames ws
    → Part part
    → length (stream ws ++ part) < fuel
    → length sofar.results + length ws ≤ most
    → keep buf sofar.kept ≡ stream ws ++ part
    → (s : Scan) × (scan_loop fuel most (stream ws ++ part) sofar ≡ ok s)
      × (s.results ≡ sofar.results ++ views ws)
      × (keep buf s.kept ≡ part)
unfolding scan_loop
scan-Frames [] fuel most part sofar buf frames is enough room at =
    let (s, p, q, r) = scan-Part fuel most part sofar buf is (omega arith) at in
    (s, p, q ∙ sym (append-nil sofar.results), r)
scan-Frames (w ∷ ws) zero most part sofar buf frames is enough room at = absurd (omega arith)
scan-Frames (w ∷ ws) (suc fuel) most part sofar buf frames is enough room at =
    let rest : Bytes = stream ws ++ part in
    let bracket : (w.0 ++ stream ws) ++ part ≡ w.0 ++ rest = append_assoc w.0 (stream ws) part in
    let next : Scan = record { results = sofar.results ++ (w.1 ∷ []); kept = some rest } in
    let size : length ((w.0 ++ stream ws) ++ part) ≡ length w.0 + length rest =
      ap length bracket ∙ length-append w.0 rest in
    let grown : length next.results ≡ length sofar.results + 1 =
      length-append sofar.results (w.1 ∷ []) in
    let (s, p, q, r) =
      scan-Frames ws fuel most part next buf frames.1 is (omega (arith, wire_size frames.0))
        (omega arith) refl in
    (
      s,
      ap (λ (v : Bytes). scan_round most v sofar >>= go_on (scan_loop fuel most)) bracket
          ∙ ap (λ r. r >>= go_on (scan_loop fuel most))
              (round_complete frames.0 most rest sofar (omega arith))
          ∙ p,
      q ∙ append_assoc sofar.results (w.1 ∷ []) (views ws),
      r,
    )

pub feed-Frames :
    (dec : StreamingDecoder) (chunk : Bytes) (ws : List (Bytes × PacketView)) (part : Bytes)
    → Frames ws
    → Part part
    → length ws ≤ dec.max_per_feed
    → dec.buffer ++ chunk ≡ stream ws ++ part
    → feed dec chunk ≡ (ok (views ws), record { buffer = part; max_per_feed = dec.max_per_feed })
unfolding feed
feed-Frames dec chunk ws part frames is room at =
    let buf : Bytes = stream ws ++ part in
    let (s, p, q, r) =
      scan-Frames ws (suc (length buf)) dec.max_per_feed part start buf frames is (omega arith)
        (omega arith) refl in
    ap
      (λ (b : Bytes).
        finish dec.max_per_feed b (scan_loop (suc (length b)) dec.max_per_feed b start))
      at
    ∙ ap (finish dec.max_per_feed buf) p
    ∙ ap₂
        (λ (vs : List PacketView) (b : Bytes).
          (ok vs, record { buffer = b; max_per_feed = dec.max_per_feed }))
        q r
