-- ===== src/Bin/Streaming/Frames.antt =====
-- aicl/bin/streaming.py: whole packets and parts of packets in the buffer.
use aicl.Common.{
  [], ap, append_assoc, arith, drop-append, length, length-append, le→leb, le→ltb, lt→ltb, refl,
  some, sym, take-append, ℕ, ◌++◌, ◌+◌, ◌<◌, ◌∙◌, ◌∷◌, ◌≡◌,
}
use aicl.Bin.Codec.{decode}
use aicl.Bin.Header.{validate_header}
use aicl.Bin.Streaming.{
  Scan, again, find_magic, packet_end, scan_find, scan_header, scan_round, stop,
}
use aicl.Bin.View.{PacketView}
use aicl.Py.Result.{ok}
use aicl.Py.Struct.{Bytes}

-- A packet on the wire, as `feed` sees it: the header alone, whatever follows it, tells the size.
pub record Frame (wire : Bytes) (view : PacketView) : Type 0 where
  pub head : Bytes
  pub body : Bytes
  pub parts : wire ≡ head ++ body
  pub head_size : length head ≡ 56
  pub magic_first : (rest : Bytes) → find_magic (head ++ rest) ≡ some (head ++ rest)
  pub valid : validate_header head ≡ ok tt
  pub ends : (rest : Bytes) → packet_end (head ++ rest) ≡ ok (length wire)
  pub decoded : decode wire ≡ ok view

module _ {wire : Bytes} {view : PacketView} (frame : Frame wire view) where
  pub wire_size : length wire ≡ 56 + length frame.body
  wire_size =
      ap length frame.parts
      ∙ length-append frame.head frame.body
      ∙ ap (λ (n : ℕ). n + length frame.body) frame.head_size

  -- A header at the front of the bytes, with the packet's size.
  at_header :
      (most : ℕ) (rest : Bytes) (sofar : Scan)
      → length sofar.results < most
      → scan_round most (frame.head ++ rest) sofar ≡ scan_header (ok tt) (frame.head ++ rest) sofar
  unfolding scan_round scan_find
  at_header most rest sofar room =
      let size : length (frame.head ++ rest) ≡ 56 + length rest =
        length-append frame.head rest ∙ ap (λ (n : ℕ). n + length rest) frame.head_size in
      rw (
        le→leb 56 (length (frame.head ++ rest)) (omega arith),
        lt→ltb (length sofar.results) most room,
        frame.magic_first rest,
        le→ltb (length (frame.head ++ rest)) 56 (omega arith),
        take-append 56 frame.head rest frame.head_size,
        frame.valid,
      )

  -- A whole packet, whatever follows.
  pub round_complete :
      (most : ℕ) (rest : Bytes) (sofar : Scan)
      → length sofar.results < most
      → scan_round most (wire ++ rest) sofar
        ≡ ok (again rest (record { results = sofar.results ++ (view ∷ []); kept = some rest }))
  unfolding scan_header
  round_complete most rest sofar room =
      let bracket : wire ++ rest ≡ frame.head ++ (frame.body ++ rest) =
        ap (λ (w : Bytes). w ++ rest) frame.parts ∙ append_assoc frame.head frame.body rest in
      ap (λ (w : Bytes). scan_round most w sofar) bracket
      ∙ at_header most (frame.body ++ rest) sofar room
      ∙ ap (λ (w : Bytes). scan_header (ok tt) w sofar) (sym bracket)
      ∙ rw (
        ap packet_end bracket ∙ frame.ends (frame.body ++ rest),
        le→ltb (length (wire ++ rest)) (length wire) (omega (arith, length-append wire rest)),
        take-append (length wire) wire rest refl,
        drop-append (length wire) wire rest refl,
        frame.decoded,
      )

  -- A part of a packet from its header on.
  pub round_incomplete :
      (most : ℕ) (got : Bytes) (sofar : Scan)
      → length sofar.results < most
      → length (frame.head ++ got) < length wire
      → scan_round most (frame.head ++ got) sofar
        ≡ ok (stop (record { results = sofar.results; kept = some (frame.head ++ got) }))
  unfolding scan_header
  round_incomplete most got sofar room short =
      at_header most got sofar room
      ∙ rw (frame.ends got, lt→ltb (length (frame.head ++ got)) (length wire) short)
