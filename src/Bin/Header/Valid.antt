-- ===== src/Bin/Header/Valid.antt =====
-- aicl/bin/header.py and aicl/bin/validation.py: what `pack_header` writes, and who accepts it.
use aicl.Common.{
  ==_iff, ==_refl, [], ap, append_assoc, arith, leb, length, length-append, le→leb, le→ltb, lt→ltb,
  negsuc, pos, refl, ℕ, ℤ, ◌++◌, ◌<◌, ◌^◌, ◌∙◌, ◌≡◌, ◌≤◌,
}
use aicl.Bin.Header.{
  Header, check_deadline, compute_crc32, header_prefix, magic, max_payload, pack_header,
  unpack_header, validate_header,
}
use aicl.Bin.Header.Layout.{
  correlation_id_at, crc_at, deadline_at, flags_at, laid_out, length-laid_out, length-prefix,
  message_id_at, payload_length_at, prefix_laid_out, take-laid_out, version_at,
}
use aicl.Py.Result.{guard, header_error, ok}
use aicl.Py.Struct.{Bytes, be, length-be}

-- What `pack_header` asks of its arguments, with the deadline as a number.
pub record Packable (v f : ℕ) (mid cid : Bytes) (deadline : ℤ) (d p : ℕ) : Type 0 where
  pub version_ok : v ≡ 0x0100
  pub flags_ok : f < 2 ^ 16
  pub message_id_ok : length mid ≡ 16
  pub correlation_id_ok : length cid ≡ 16
  pub deadline_is : deadline ≡ pos d
  pub deadline_ok : d < 2 ^ 32
  pub payload_ok : p < 2 ^ 32

abbrev pub packed_header : ℕ → ℕ → Bytes → Bytes → ℕ → ℕ → Bytes
packed_header v f mid cid d p =
    header_prefix v f mid cid d p ++ be 4 (compute_crc32 (header_prefix v f mid cid d p))

pub pack_header_ok :
    {v f : ℕ} {mid cid : Bytes} {deadline : ℤ} {d p : ℕ}
    → Packable v f mid cid deadline d p
    → pack_header v f mid cid deadline p ≡ ok (packed_header v f mid cid d p)
unfolding pack_header check_deadline
pack_header_ok {v} {f} {mid} {cid} {deadline} {d} {p} c = rw (
  c.version_ok,
  (==_iff (length mid) 16).1 c.message_id_ok,
  (==_iff (length cid) 16).1 c.correlation_id_ok,
  le→leb p 0xFFFF_FFFF (omega arith),
  c.deadline_is,
  le→ltb 0xFFFF_FFFF d (omega arith),
  lt→ltb f 0x10000 c.flags_ok,
)

pub pack_header-Packable :
    (v f : ℕ) (mid cid : Bytes) (deadline : ℤ) (p : ℕ) {out : Bytes}
    → pack_header v f mid cid deadline p ≡ ok out
    → (d : ℕ) × Packable v f mid cid deadline d p
unfolding pack_header check_deadline
pack_header-Packable v f mid cid (pos d) p e = (d, ground arith)
pack_header-Packable v f mid cid (negsuc d) p e = ground arith

-- The header that a packing of these fields unpacks to.
abbrev pub header_of : ℕ → ℕ → Bytes → Bytes → ℕ → ℕ → Header
header_of v f mid cid d p = record {
  magic_bytes = magic;
  version = v;
  flags = f;
  message_id = mid;
  correlation_id = cid;
  deadline_ms = d;
  payload_length = p;
}

module _ {v f : ℕ} {mid cid : Bytes} {deadline : ℤ} {d p : ℕ}
    (c : Packable v f mid cid deadline d p) where
  pub unpack_laid_out :
      (tail : Bytes)
      → 4 ≤ length tail
      → unpack_header (laid_out v f mid cid d p tail) ≡ ok (header_of v f mid cid d p)
  unfolding unpack_header
  unpack_laid_out tail room =
      let mid_size = c.message_id_ok in
      let cid_size = c.correlation_id_ok in
      rw (
        le→leb 56 (length (laid_out v f mid cid d p tail))
            (omega (arith, length-laid_out v f mid cid d p tail mid_size cid_size)),
        version_at v f mid cid d p tail (omega (arith, c.version_ok)),
        flags_at v f mid cid d p tail c.flags_ok,
        deadline_at v f mid cid d p tail mid_size cid_size c.deadline_ok,
        payload_length_at v f mid cid d p tail mid_size cid_size c.payload_ok,
        (==_iff v 0x0100).1 c.version_ok,
        message_id_at v f mid cid d p tail mid_size cid_size,
        correlation_id_at v f mid cid d p tail mid_size cid_size,
      )

  -- Behind the right CRC `validate_header` decides on the payload's length alone.
  pub validate_laid_out :
      (rest : Bytes)
      → let crc = compute_crc32 (header_prefix v f mid cid d p) in
        validate_header (laid_out v f mid cid d p (be 4 crc ++ rest))
        ≡ guard (leb p max_payload) header_error
  unfolding validate_header
  validate_laid_out rest =
      let mid_size = c.message_id_ok in
      let cid_size = c.correlation_id_ok in
      let crc : ℕ = compute_crc32 (header_prefix v f mid cid d p) in
      let tail : Bytes = be 4 crc ++ rest in
      let small : crc < 2 ^ 32 = unfold compute_crc32 in omega arith in
      rw (
        le→leb 56 (length (laid_out v f mid cid d p tail)) (
            omega (
              arith,
              length-laid_out v f mid cid d p tail mid_size cid_size,
              length-append (be 4 crc) rest,
              length-be 4 crc,
            )),
        version_at v f mid cid d p tail (omega (arith, c.version_ok)),
        (==_iff v 0x0100).1 c.version_ok,
        crc_at v f mid cid d p tail mid_size cid_size crc rest small refl,
        take-laid_out v f mid cid d p tail mid_size cid_size,
        ==_refl crc,
        payload_length_at v f mid cid d p tail mid_size cid_size c.payload_ok,
      )

-- What `pack_header` wrote, laid out with whatever follows.
pub packed_laid_out :
    (v f : ℕ) (mid cid : Bytes) (d p : ℕ) (rest : Bytes)
    → packed_header v f mid cid d p ++ rest
      ≡ laid_out v f mid cid d p (be 4 (compute_crc32 (header_prefix v f mid cid d p)) ++ rest)
packed_laid_out v f mid cid d p rest =
    let crc : Bytes = be 4 (compute_crc32 (header_prefix v f mid cid d p)) in
    append_assoc (header_prefix v f mid cid d p) crc rest
    ∙ prefix_laid_out v f mid cid d p (crc ++ rest)

pub length-packed_header :
    {v f : ℕ} {mid cid : Bytes} {deadline : ℤ} {d p : ℕ}
    → Packable v f mid cid deadline d p
    → length (packed_header v f mid cid d p) ≡ 56
length-packed_header {v} {f} {mid} {cid} {deadline} {d} {p} c = omega (
  arith,
  length-append (header_prefix v f mid cid d p)
      (be 4 (compute_crc32 (header_prefix v f mid cid d p))),
  length-prefix v f mid cid d p [] c.message_id_ok c.correlation_id_ok,
  length-be 4 (compute_crc32 (header_prefix v f mid cid d p)),
)

-- When `pack_header` succeeds it writes 56 bytes; these, with whatever follows them, unpack to the
-- fields that went in, and `validate_header` accepts them exactly if the payload's length is at most
-- 0xFFFFFF, and raises HeaderError otherwise.
pub unpack_header-pack_header :
    (v f : ℕ) (mid cid : Bytes) (deadline : ℤ) (p : ℕ) (rest : Bytes) {out : Bytes}
    → pack_header v f mid cid deadline p ≡ ok out
    → (d : ℕ) × (deadline ≡ pos d)
      × (length out ≡ 56)
      × (unpack_header (out ++ rest) ≡ ok (header_of v f mid cid d p))
      × (validate_header (out ++ rest) ≡ guard (leb p max_payload) header_error)
unpack_header-pack_header v f mid cid deadline p rest {out} e =
    let (d, c) = pack_header-Packable v f mid cid deadline p e in
    let crc : Bytes = be 4 (compute_crc32 (header_prefix v f mid cid d p)) in
    let is : out ≡ packed_header v f mid cid d p = cc (pack_header_ok c) in
    let laid : out ++ rest ≡ laid_out v f mid cid d p (crc ++ rest) =
      ap (λ (t : Bytes). t ++ rest) is ∙ packed_laid_out v f mid cid d p rest in
    (
      d,
      c.deadline_is,
      ap length is ∙ length-packed_header c,
      ap unpack_header laid
          ∙ unpack_laid_out c (crc ++ rest) (
              omega (
                arith,
                length-append crc rest,
                length-be 4 (compute_crc32 (header_prefix v f mid cid d p)),
              )),
      ap validate_header laid ∙ validate_laid_out c rest,
    )
