-- ===== src/Bin/Codec/RoundTrip.antt =====
-- aicl/bin/codec_api.py: `decode` on the bytes of `encode`.
use aicl.Common.{
  ==_refl, All, Bool, List, [], ap, append-nil, append_assoc, arith, bit_and, bit_or, false,
  if◌then◌else◌, length, length-append, le→ltb, lt→ltb, pos, refl, sym, take, take-append, take_all,
  true, ℕ, ℤ, ◌++◌, ◌+◌, ◌<◌, ◌^◌, ◌∙◌, ◌≡◌, ◌≤◌,
}
use aicl.Bin.Codec.{decode, encode, flag_has_trailer, validate_trailer}
use aicl.Bin.Codec.Wire.{decode-packed, decode-too_large, packet_view-packed}
use aicl.Bin.Header.{compute_crc32, max_payload, pack_header}
use aicl.Bin.Header.Valid.{
  Packable, header_of, length-packed_header, pack_header-Packable, pack_header_ok, packed_header,
}
use aicl.Bin.Packet.{Packet, build_payload, extension_fields}
use aicl.Bin.Packet.Fields.{gather, sequence}
use aicl.Bin.Symbol.{Symbol}
use aicl.Bin.View.{Extensions, PacketView, ext_all, packet_view, read_payload}
use aicl.Bin.View.Payload.{IsCore, read_payload-build_payload}
use aicl.Py.Result.{>>=-eq-ok, err, header_error, ok, ok-injective, ◌>>=◌}
use aicl.Py.Struct.{Bytes, be, length-be, unpack_at, unpack_at-be, unpack_at-skip}

-- What a view holds of the packet that was sent.
pub record Carries (p : Packet) (flags : ℕ) (payload : Bytes) (view : PacketView) : Type 0 where
  pub version_same : view.header.version ≡ p.version
  pub flags_same : view.header.flags ≡ flags
  pub message_id_same : view.header.message_id ≡ p.message_id
  pub correlation_id_same : view.header.correlation_id ≡ p.correlation_id
  pub deadline_same : pos view.header.deadline_ms ≡ p.deadline_ms
  pub payload_size : view.header.payload_length ≡ length payload
  pub operation_same : view.operation ≡ bit_and p.operation 0xFF
  pub symbols_same : view.symbols ≡ p.symbols
  pub extensions_same :
      (t : ℕ) → sequence (gather t (extension_fields p)) ≡ ok (ext_all t view.extensions)

-- The flags on the wire.
abbrev pub wire_flags : Packet → Bool → ℕ
wire_flags p checksum = if checksum then bit_or p.flags flag_has_trailer else p.flags

-- A packed header and a payload.
abbrev pub sent : ℕ → ℕ → Bytes → Bytes → ℕ → Bytes → Bytes
sent v f mid cid d payload = packed_header v f mid cid d (length payload) ++ payload

-- The trailer that `encode` appends.
abbrev pub with_trailer : Bool → Bytes → Bytes
with_trailer checksum s = if checksum then s ++ be 4 (compute_crc32 s) else s

-- The behaviour of `decode` on these, with and without the trailer that `encode` appends.
module _ {v f : ℕ} {mid cid : Bytes} {deadline : ℤ} {d : ℕ} (payload : Bytes)
    (c : Packable v f mid cid deadline d (length payload))
    (fits : length payload ≤ max_payload) where
  decode_plain :
      {operation : ℕ} {core : List Symbol} {es : Extensions}
      → read_payload payload ≡ ok (operation, core, es)
      → decode (sent v f mid cid d payload)
        ≡ ok (record {
          header = header_of v f mid cid d (length payload);
          operation = operation;
          symbols = core;
          extensions = es;
        })
  decode_plain h =
      let prefix : Bytes = sent v f mid cid d payload in
      let head : Bytes = packed_header v f mid cid d (length payload) in
      decode-packed c payload fits (omega arith)
      ∙ rw
          (le→ltb (56 + length payload) (length prefix)
            (omega (arith, length-append head payload, length-packed_header c)))
          (packet_view-packed c payload (length payload)
            (ap read_payload (take_all (length payload) payload refl) ∙ h))

  decode_checked :
      {operation : ℕ} {core : List Symbol} {es : Extensions}
      → read_payload (payload ++ be 4 (compute_crc32 (sent v f mid cid d payload)))
        ≡ ok (operation, core, es)
      → decode (sent v f mid cid d payload ++ be 4 (compute_crc32 (sent v f mid cid d payload)))
        ≡ ok (record {
          header = header_of v f mid cid d (length payload);
          operation = operation;
          symbols = core;
          extensions = es;
        })
  unfolding validate_trailer
  decode_checked h =
      let prefix : Bytes = sent v f mid cid d payload in
      let head : Bytes = packed_header v f mid cid d (length payload) in
      let crc : ℕ = compute_crc32 prefix in
      let size : length prefix ≡ 56 + length payload =
        length-append head payload ∙ ap (λ (n : ℕ). n + length payload) (length-packed_header c) in
      let small : crc < 2 ^ 32 = unfold compute_crc32 in omega arith in
      let whole : length (payload ++ be 4 crc) ≡ length payload + 4 =
        length-append payload (be 4 crc) ∙ ap (λ (n : ℕ). length payload + n) (length-be 4 crc) in
      let bracket : prefix ++ be 4 crc ≡ head ++ (payload ++ be 4 crc) =
        append_assoc head payload (be 4 crc) in
      ap decode bracket
      ∙ decode-packed c (payload ++ be 4 crc) fits (omega (arith, whole))
      ∙ rw
          (
            lt→ltb (56 + length payload) (length (head ++ (payload ++ be 4 crc))) (
                omega (
                  arith,
                  ap length (sym bracket),
                  length-append prefix (be 4 crc),
                  size,
                  length-be 4 crc,
                )),
            ap (unpack_at 4 (56 + length payload)) (sym bracket)
                ∙ unpack_at-skip 4 (56 + length payload) (56 + length payload) 0 prefix (be 4 crc)
                    size (omega arith)
                ∙ ap (unpack_at 4 0) (sym (append-nil (be 4 crc)))
                ∙ unpack_at-be 4 crc [] small,
            ap (take (56 + length payload)) (sym bracket)
                ∙ take-append (56 + length payload) prefix (be 4 crc) size,
            ==_refl crc,
          )
          (ap (packet_view (head ++ (payload ++ be 4 crc)) 56) (omega arith)
            ∙ packet_view-packed c (payload ++ be 4 crc) (length payload + 4)
                (ap read_payload (take_all (length payload + 4) (payload ++ be 4 crc) whole) ∙ h))

  decode-sent :
      (checksum : Bool) {operation : ℕ} {core : List Symbol} {es : Extensions}
      → ((rest : Bytes) → read_payload (payload ++ rest) ≡ ok (operation, core, es))
      → decode (with_trailer checksum (sent v f mid cid d payload))
        ≡ ok (record {
          header = header_of v f mid cid d (length payload);
          operation = operation;
          symbols = core;
          extensions = es;
        })
  decode-sent true h = decode_checked (h _)
  decode-sent false h = decode_plain (ap read_payload (sym (append-nil payload)) ∙ h [])

-- What `decode` says of a payload that is too large.
pub decode_refused :
    {v f : ℕ} {mid cid : Bytes} {deadline : ℤ} {d : ℕ} (checksum : Bool) (payload : Bytes)
    → Packable v f mid cid deadline d (length payload)
    → max_payload < length payload
    → decode (with_trailer checksum (sent v f mid cid d payload)) ≡ err header_error
decode_refused {v} {f} {mid} {cid} {deadline} {d} true payload c big =
    ap decode (append_assoc (packed_header v f mid cid d (length payload)) payload _)
    ∙ decode-too_large c _ big
decode_refused {v} {f} {mid} {cid} {deadline} {d} false payload c big =
    decode-too_large c payload big

module _ (p : Packet) (checksum : Bool) {payload wire : Bytes}
    (built : build_payload p ≡ ok payload) (sends : encode p checksum ≡ ok wire) where
  encode-pack_header : encode p checksum ≡ (do
    header ←
        pack_header p.version
          (wire_flags p checksum)
          p.message_id
          p.correlation_id
          p.deadline_ms
          (length payload)
    ok (with_trailer checksum (header ++ payload)))
  unfolding encode
  encode-pack_header = rw built

  -- What `encode` put on the wire.
  pub encode_parts :
      (d : ℕ) × Packable p.version
        (wire_flags p checksum)
        p.message_id
        p.correlation_id
        p.deadline_ms
        d
        (length payload)
      × (wire
          ≡ with_trailer checksum
              (sent p.version (wire_flags p checksum) p.message_id p.correlation_id d payload))
  encode_parts =
      let (header, h, e1) =
        >>=-eq-ok
          (pack_header p.version (wire_flags p checksum) p.message_id p.correlation_id p.deadline_ms
            (length payload))
          _ (sym encode-pack_header ∙ sends) in
      let (d, c) =
        pack_header-Packable p.version (wire_flags p checksum) p.message_id p.correlation_id
          p.deadline_ms (length payload) h in
      (
        d,
        c,
        sym (ok-injective e1)
            ∙ ap (λ (b : Bytes). with_trailer checksum (b ++ payload))
                (ok-injective (sym h ∙ pack_header_ok c)),
      )

-- A packet whose core operands fit and carry no vendor tag, and whose payload has at most 0xFFFFFF
-- bytes: if `encode` succeeds, with or without the checksum, `decode` accepts the bytes and yields a
-- view with the same version, flags (and the trailer's), ids, deadline, low byte of the operation and core operands, in
-- order; and for every tag the extensions of the view are the byte strings that the packet computes for that tag.
pub decode-encode :
    (p : Packet) (checksum : Bool) {payload wire : Bytes}
    → All IsCore p.symbols
    → build_payload p ≡ ok payload
    → length payload ≤ max_payload
    → encode p checksum ≡ ok wire
    → (view : PacketView) × (decode wire ≡ ok view) × Carries p (wire_flags p checksum) payload view
decode-encode p checksum {payload} {wire} core built fits sends =
    let (d, c, is) = encode_parts p checksum built sends in
    let (es, reads, found) = read_payload-build_payload p core built fits in
    (
      _,
      ap decode is ∙ decode-sent payload c fits checksum reads,
      record {
        version_same = refl;
        flags_same = refl;
        message_id_same = refl;
        correlation_id_same = refl;
        deadline_same = sym c.deadline_is;
        payload_size = refl;
        operation_same = refl;
        symbols_same = refl;
        extensions_same = found;
      },
    )
