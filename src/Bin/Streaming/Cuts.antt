-- ===== src/Bin/Streaming/Cuts.antt =====
-- aicl/bin/streaming.py: feeding a stream in chunks.
use aicl.Common.{
  List, [], ap, append-cancel, append-eq-nil, append-longer, append_assoc, arith, length,
  length-append, refl, sym, ℕ, ◌++◌, ◌+◌, ◌<◌, ◌∙◌, ◌∷◌, ◌≡◌, ◌≤◌,
}
use aicl.Bin.Streaming.{StreamingDecoder, feed}
use aicl.Bin.Streaming.Chunks.{Frames, Part, feed-Frames, inside_packet, stream, too_few, views}
use aicl.Bin.Streaming.Frames.{wire_size}
use aicl.Bin.View.{PacketView}
use aicl.Py.Result.{Result, map_ok, ok, ◌>>=◌}
use aicl.Py.Struct.{Bytes}
use native.Mathlib.Decide.{dec_lt}

-- The bytes before the next packet's end: no packet is left, or the next one is longer.
abbrev Ahead : Bytes → List (Bytes × PacketView) → Type 0
Ahead part [] = part ≡ []
Ahead part (w ∷ ws) = length part < length w.0

-- Where a cut in a stream falls: behind some packets, inside the next.
record Cut (ws : List (Bytes × PacketView)) (front back : Bytes) : Type 0 where
  done : List (Bytes × PacketView)
  left : List (Bytes × PacketView)
  part : Bytes
  packets : done ++ left ≡ ws
  done_Frames : Frames done
  left_Frames : Frames left
  cut_front : front ≡ stream done ++ part
  cut_back : part ++ back ≡ stream left
  ahead : Ahead part left

cut :
    (ws : List (Bytes × PacketView)) (front back : Bytes)
    → Frames ws
    → front ++ back ≡ stream ws
    → Cut ws front back
cut [] front back frames e =
    let empty : front ≡ [] = append-eq-nil front back e in
    record {
      done = [];
      left = [];
      part = front;
      packets = refl;
      done_Frames = tt;
      left_Frames = tt;
      cut_front = refl;
      cut_back = e;
      ahead = empty;
    }
cut (w ∷ ws) front back frames e = elim (dec_lt (length front) (length w.0)) [
  | yes inside_next ↦ record {
    done = [];
    left = w ∷ ws;
    part = front;
    packets = refl;
    done_Frames = tt;
    left_Frames = frames;
    cut_front = refl;
    cut_back = e;
    ahead = inside_next;
  }
  | no past ↦
      let (more, is) = append-longer front w.0 back (stream ws) (omega arith) e in
      let c : Cut ws more back = cut ws more back frames.1 (
        append-cancel w.0 (more ++ back) (stream ws)
          (sym (append_assoc w.0 more back) ∙ ap (λ (b : Bytes). b ++ back) (sym is) ∙ e)) in
      record {
        done = w ∷ c.done;
        left = c.left;
        part = c.part;
        packets = ap (λ (v : List (Bytes × PacketView)). w ∷ v) c.packets;
        done_Frames = (frames.0, c.done_Frames);
        left_Frames = c.left_Frames;
        cut_front =
            is
            ∙ ap (λ (b : Bytes). w.0 ++ b) c.cut_front
            ∙ sym (append_assoc w.0 (stream c.done) c.part);
        cut_back = c.cut_back;
        ahead = c.ahead;
      }
]

Part-of :
    (part back : Bytes) (left : List (Bytes × PacketView))
    → Frames left
    → Ahead part left
    → part ++ back ≡ stream left
    → Part part
Part-of part back [] frames ahead e = too_few (omega (arith, ap length ahead))
Part-of part back (w ∷ ws) frames ahead e = elim (dec_lt (length part) 56) [
  | yes few ↦ too_few few
  | no many ↦
      let frame = frames.0 in
      let bracket : part ++ back ≡ frame.head ++ (frame.body ++ stream ws) =
        e
        ∙ ap (λ (b : Bytes). b ++ stream ws) frame.parts
        ∙ append_assoc frame.head frame.body (stream ws) in
      let (got, is) =
        append-longer part frame.head back (frame.body ++ stream ws)
          (omega (arith, frame.head_size)) bracket in
      inside_packet frame got is ahead
]

-- Several calls of `feed`; the first exception ends them.
unfoldable pub feed_all :
    StreamingDecoder → List Bytes → Result (List PacketView) × StreamingDecoder
feed_all dec [] = (ok [], dec)
feed_all dec (c ∷ cs) =
    let (found, dec') = feed dec c in
    let (more, dec'') = feed_all dec' cs in (found >>= λ vs. map_ok (λ us. vs ++ us) more, dec'')

views-append : (us vs : List (Bytes × PacketView)) → views (us ++ vs) ≡ views us ++ views vs
views-append [] vs = refl
views-append (u ∷ us) vs = ap (λ (x : List PacketView). u.1 ∷ x) (views-append us vs)

abbrev pub concat : List Bytes → Bytes
concat [] = []
concat (c ∷ cs) = c ++ concat cs

feed_rest :
    (chunks : List Bytes) (ws : List (Bytes × PacketView)) (most : ℕ) (part : Bytes)
    → Frames ws
    → Ahead part ws
    → length ws ≤ most
    → part ++ concat chunks ≡ stream ws
    → feed_all (record { buffer = part; max_per_feed = most }) chunks
      ≡ (ok (views ws), record { buffer = []; max_per_feed = most })
unfolding feed_all
feed_rest [] [] most part frames ahead room e =
    ap (λ (b : Bytes). (ok [], record { buffer = b; max_per_feed = most })) ahead
feed_rest [] (w ∷ ws) most part frames ahead room e =
    absurd (omega (arith, ap length e, length-append part [], length-append w.0 (stream ws)))
feed_rest (c ∷ cs) ws most part frames ahead room e =
    let k : Cut ws (part ++ c) (concat cs) =
      cut ws (part ++ c) (concat cs) frames (append_assoc part c (concat cs) ∙ e) in
    let sizes : length k.done + length k.left ≡ length ws =
      sym (length-append k.done k.left) ∙ ap length k.packets in
    let one : feed (record { buffer = part; max_per_feed = most }) c
        ≡ (ok (views k.done), record { buffer = k.part; max_per_feed = most }) =
      feed-Frames (record { buffer = part; max_per_feed = most }) c k.done k.part k.done_Frames
        (Part-of k.part (concat cs) k.left k.left_Frames k.ahead k.cut_back) (omega arith)
        k.cut_front in
    let rest = feed_rest cs k.left most k.part k.left_Frames k.ahead (omega arith) k.cut_back in
    let joined : views k.done ++ views k.left ≡ views ws =
      sym (views-append k.done k.left) ∙ ap views k.packets in
    rw (one, rest, joined) refl

-- However a stream of packets is cut into chunks, feeding the chunks to a new decoder yields the views
-- of the packets, each once and in order, and leaves the buffer empty, provided that the stream has at
-- most `max_packets_per_feed` packets.
pub feed_all-stream :
    (ws : List (Bytes × PacketView)) (most : ℕ) (chunks : List Bytes)
    → Frames ws
    → length ws ≤ most
    → concat chunks ≡ stream ws
    → feed_all (record { buffer = []; max_per_feed = most }) chunks
      ≡ (ok (views ws), record { buffer = []; max_per_feed = most })
feed_all-stream ws most chunks frames room e =
    feed_rest chunks ws most [] frames (nothing_ahead ws frames) room e
  where
    nothing_ahead : (ws : List (Bytes × PacketView)) → Frames ws → Ahead [] ws
    nothing_ahead [] h = refl
    nothing_ahead (w ∷ ws) h = omega (arith, wire_size h.0)
