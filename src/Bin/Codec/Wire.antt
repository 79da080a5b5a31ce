-- ===== src/Bin/Codec/Wire.antt =====
-- aicl/bin/codec_api.py and aicl/bin/codec_view.py: how a packed header and what follows it are read.
use aicl.Common.{
  List, [], ap, append-nil, arith, drop-take-append, if◌then◌else◌, length, length-append, le→leb,
  ltb, lt→ltb, refl, sym, take, take-append, ℕ, ℤ, ◌++◌, ◌+◌, ◌<◌, ◌∙◌, ◌≡◌, ◌≤◌,
}
use aicl.Bin.Codec.{checksum_size, decode, validate_trailer}
use aicl.Bin.Header.{
  Header, compute_crc32, header_prefix, header_size, max_payload, unpack_header, validate_header,
}
use aicl.Bin.Header.Layout.{laid_out, payload_length_at}
use aicl.Bin.Header.Valid.{
  Packable, header_of, length-packed_header, packed_header, packed_laid_out, unpack_laid_out,
  validate_laid_out,
}
use aicl.Bin.Symbol.{Symbol}
use aicl.Bin.View.{Extensions, packet_view, read_payload}
use aicl.Py.Result.{err, header_error, ok, ◌>>=◌, ◌>>◌}
use aicl.Py.Struct.{Bytes, be, length-be, unpack_at}

module _ {v f : ℕ} {mid cid : Bytes} {deadline : ℤ} {d p : ℕ}
    (c : Packable v f mid cid deadline d p) where
  abbrev head : Bytes
  head = packed_header v f mid cid d p

  abbrev header_at : Header
  header_at = header_of v f mid cid d p

  abbrev crc_of : Bytes
  crc_of = be 4 (compute_crc32 (header_prefix v f mid cid d p))

  head_laid : head ≡ laid_out v f mid cid d p (crc_of ++ [])
  head_laid = sym (append-nil head) ∙ packed_laid_out v f mid cid d p []

  head_unpacks : unpack_header head ≡ ok header_at
  head_unpacks =
      ap unpack_header head_laid
      ∙ unpack_laid_out c (crc_of ++ []) (
          omega (
            arith,
            length-append crc_of [],
            length-be 4 (compute_crc32 (header_prefix v f mid cid d p)),
          ))

  pub head_valid : p ≤ max_payload → validate_header head ≡ ok tt
  head_valid fits =
      ap validate_header head_laid ∙ validate_laid_out c [] ∙ rw (le→leb p max_payload fits) refl

  pub payload_length_of : (rest : Bytes) → unpack_at 4 44 (head ++ rest) ≡ ok p
  payload_length_of rest =
      ap (unpack_at 4 44) (packed_laid_out v f mid cid d p rest)
      ∙ payload_length_at v f mid cid d p _ c.message_id_ok c.correlation_id_ok c.payload_ok

  -- The view of a packed header and `n` of the bytes behind it.
  pub packet_view-packed :
      (rest : Bytes) (n : ℕ) {operation : ℕ} {core : List Symbol} {es : Extensions}
      → read_payload (take n rest) ≡ ok (operation, core, es)
      → packet_view (head ++ rest) header_size (header_size + n)
        ≡ ok (record { header = header_at; operation = operation; symbols = core; extensions = es })
  unfolding packet_view
  packet_view-packed rest n h = rw (
    take-append 56 head rest (length-packed_header c),
    head_unpacks,
    drop-take-append 56 (56 + n) n head rest (length-packed_header c) refl,
    h,
  )

  -- `decode` up to the test for a trailer.
  pub decode-packed :
      (rest : Bytes)
      → p ≤ max_payload
      → p ≤ length rest
      → decode (head ++ rest) ≡ (
          if ltb (header_size + p) (length (head ++ rest))
          then (do
            expected ← unpack_at 4 (header_size + p) (head ++ rest)
            validate_trailer (take (header_size + p) (head ++ rest)) expected
            packet_view (head ++ rest) header_size (header_size + p + checksum_size))
          else packet_view (head ++ rest) header_size (header_size + p))
  unfolding decode
  decode-packed rest fits room =
      let size = length-packed_header c in
      rw (
        le→leb 56 (length (head ++ rest)) (omega (arith, length-append head rest, size)),
        take-append 56 head rest size,
        head_valid fits,
        payload_length_of rest,
        le→leb (56 + p) (length (head ++ rest)) (omega (arith, length-append head rest, size)),
      )

  -- A payload that is too large.
  pub decode-too_large : (rest : Bytes) → max_payload < p → decode (head ++ rest) ≡ err header_error
  unfolding decode
  decode-too_large rest big =
      let size = length-packed_header c in
      rw
        (
          le→leb 56 (length (head ++ rest)) (omega (arith, length-append head rest, size)),
          take-append 56 head rest size,
          ap validate_header head_laid ∙ validate_laid_out c [],
        )
        (ground (arith, lt→ltb max_payload p big))
