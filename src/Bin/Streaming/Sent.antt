-- ===== src/Bin/Streaming/Sent.antt =====
-- aicl/bin/codec_api.py and aicl/bin/streaming.py: what `encode` returns is a packet of a stream.
use aicl.Common.{
  All, Bool, ap, append_assoc, arith, bit_and, bit_or, bit_or_high, false, if◌then◌else◌, length,
  length-append, not, refl, some, subst, sym, true, ℕ, ℤ, ◌%◌, ◌*◌, ◌++◌, ◌+◌, ◌/◌, ◌<◌, ◌==◌, ◌^◌,
  ◌∙◌, ◌≡◌, ◌≤◌,
}
use aicl.Bin.Codec.{decode, encode}
use aicl.Bin.Codec.RoundTrip.{Carries, decode-encode, encode_parts, sent, wire_flags, with_trailer}
use aicl.Bin.Codec.Wire.{head_valid, payload_length_of}
use aicl.Bin.Header.{compute_crc32, max_payload}
use aicl.Bin.Header.Valid.{Packable, length-packed_header, packed_header}
use aicl.Bin.Packet.{Packet, build_payload}
use aicl.Bin.Streaming.{find_magic, packet_end}
use aicl.Bin.Streaming.Frames.{Frame}
use aicl.Bin.View.{PacketView}
use aicl.Bin.View.Payload.{IsCore}
use aicl.Py.Result.{ok}
use aicl.Py.Struct.{Bytes, be, length-be}

flags_read : (f : ℕ) → f < 2 ^ 16 → bit_or (f / 256 % 256 * 256) (f % 256) ≡ f
flags_read f h = bit_or_high 8 (f / 256 % 256) (f % 256) (omega arith) ∙ omega arith

module _ {v f : ℕ} {mid cid : Bytes} {deadline : ℤ} {d : ℕ} (payload : Bytes)
    (c : Packable v f mid cid deadline d (length payload)) where
  abbrev head : Bytes
  head = packed_header v f mid cid d (length payload)

  packet_end-packed :
      (rest : Bytes)
      → packet_end (head ++ rest)
        ≡ ok (if bit_and f 0x0100 == 0 then 56 + length payload else 56 + length payload + 4)
  unfolding packet_end be
  packet_end-packed rest = rw (payload_length_of c rest, flags_read f c.flags_ok) refl

  head_magic : (rest : Bytes) → find_magic (head ++ rest) ≡ some (head ++ rest)
  unfolding find_magic
  head_magic rest = refl

  -- The trailer is there exactly if the flag says so.
  pub sent-Frame :
      (checksum : Bool) {view : PacketView}
      → (bit_and f 0x0100 == 0) ≡ not checksum
      → length payload ≤ max_payload
      → decode (with_trailer checksum (sent v f mid cid d payload)) ≡ ok view
      → Frame (with_trailer checksum (sent v f mid cid d payload)) view
  sent-Frame true flag fits reads =
      let crc : Bytes = be 4 (compute_crc32 (sent v f mid cid d payload)) in
      record {
        head = head;
        body = payload ++ crc;
        parts = append_assoc head payload crc;
        head_size = length-packed_header c;
        magic_first = head_magic;
        valid = head_valid c fits;
        ends = λ rest.
            packet_end-packed rest
            ∙ rw flag (
                ap ok (
                  omega (
                    arith,
                    length-append (head ++ payload) crc,
                    length-append head payload,
                    length-packed_header c,
                    length-be 4 (compute_crc32 (sent v f mid cid d payload)),
                  )));
        decoded = reads;
      }
  sent-Frame false flag fits reads = record {
    head = head;
    body = payload;
    parts = refl;
    head_size = length-packed_header c;
    magic_first = head_magic;
    valid = head_valid c fits;
    ends = λ rest.
        packet_end-packed rest
        ∙ rw flag (ap ok (omega (arith, length-append head payload, length-packed_header c)));
    decoded = reads;
  }

-- What `encode` returns for a packet that `decode` reads back is a packet of a stream, provided that
-- the trailer bit of the flags on the wire is set exactly if the checksum is sent.
pub encode-Frame :
    (p : Packet) (checksum : Bool) {payload wire : Bytes}
    → All IsCore p.symbols
    → build_payload p ≡ ok payload
    → length payload ≤ max_payload
    → encode p checksum ≡ ok wire
    → (bit_and (wire_flags p checksum) 0x0100 == 0) ≡ not checksum
    → (view : PacketView) × Frame wire view × Carries p (wire_flags p checksum) payload view
encode-Frame p checksum {payload} {wire} core built fits sends flag =
    let (view, accepted, carries) = decode-encode p checksum core built fits sends in
    let (d, c, is) = encode_parts p checksum built sends in
    (
      view,
      subst (λ (w : Bytes). Frame w view) (sym is)
          (sent-Frame payload c checksum flag fits (ap decode (sym is) ∙ accepted)),
      carries,
    )
