-- ===== src/Bin/Header/Layout.antt =====
-- aicl/bin/header.py: where `pack_header` puts each field.
use aicl.Common.{
  [], ap, append_assoc, arith, length, length-append, refl, sym, take, take-append, ℕ, ◌++◌, ◌+◌,
  ◌<◌, ◌^◌, ◌∙◌, ◌∷◌, ◌≡◌,
}
use aicl.Bin.Header.{header_prefix, magic}
use aicl.Py.Result.{ok}
use aicl.Py.Struct.{
  Bytes, be, length-be, slice, slice-skip, unpack_at, unpack_at-be, unpack_at-skip,
}

-- The fields of a header, and the bytes behind its prefix.
module _ (v f : ℕ) (mid cid : Bytes) (d p : ℕ) (tail : Bytes) where
  abbrev from_deadline : Bytes
  from_deadline = be 4 d ++ (be 4 p ++ (0 ∷ 0 ∷ 0 ∷ 0 ∷ tail))

  abbrev from_ids : Bytes
  from_ids = mid ++ (cid ++ from_deadline)

  abbrev from_version : Bytes
  from_version = be 2 v ++ (be 2 f ++ from_ids)

  -- The prefix and what follows it, bracketed to the right.
  abbrev pub laid_out : Bytes
  laid_out = magic ++ from_version

  pub prefix_laid_out : header_prefix v f mid cid d p ++ tail ≡ laid_out
  prefix_laid_out = simp append_assoc

  pub version_at : v < 2 ^ 16 → unpack_at 2 4 laid_out ≡ ok v
  version_at h = unpack_at-skip 2 4 4 0 magic _ refl refl ∙ unpack_at-be 2 v _ h

  pub flags_at : f < 2 ^ 16 → unpack_at 2 6 laid_out ≡ ok f
  flags_at h =
      unpack_at-skip 2 6 4 2 magic _ refl refl
      ∙ unpack_at-skip 2 2 2 0 (be 2 v) _ (length-be 2 v) refl
      ∙ unpack_at-be 2 f _ h

  module _ (mid_size : length mid ≡ 16) (cid_size : length cid ≡ 16) where
    skip_front : (j i : ℕ) → j ≡ 8 + i → slice j 16 laid_out ≡ slice i 16 from_ids
    skip_front j i e =
        slice-skip j 4 (4 + i) 16 magic from_version refl (omega arith)
        ∙ slice-skip (4 + i) 2 (2 + i) 16 (be 2 v) (be 2 f ++ from_ids) (length-be 2 v)
            (omega arith)
        ∙ slice-skip (2 + i) 2 i 16 (be 2 f) from_ids (length-be 2 f) (omega arith)

    pub message_id_at : slice 8 16 laid_out ≡ mid
    message_id_at = skip_front 8 0 refl ∙ take-append 16 mid (cid ++ from_deadline) mid_size

    pub correlation_id_at : slice 24 16 laid_out ≡ cid
    correlation_id_at =
        skip_front 24 16 refl
        ∙ slice-skip 16 16 0 16 mid (cid ++ from_deadline) mid_size refl
        ∙ take-append 16 cid from_deadline cid_size

    -- The two ids and what stands before them.
    skip_ids :
        (w j i : ℕ) (rest : Bytes)
        → j ≡ 40 + i
        → unpack_at w j (magic ++ (be 2 v ++ (be 2 f ++ (mid ++ (cid ++ rest)))))
          ≡ unpack_at w i rest
    skip_ids w j i rest e =
        unpack_at-skip w j 4 (36 + i) magic _ refl (omega arith)
        ∙ unpack_at-skip w (36 + i) 2 (34 + i) (be 2 v) _ (length-be 2 v) (omega arith)
        ∙ unpack_at-skip w (34 + i) 2 (32 + i) (be 2 f) _ (length-be 2 f) (omega arith)
        ∙ unpack_at-skip w (32 + i) 16 (16 + i) mid _ mid_size (omega arith)
        ∙ unpack_at-skip w (16 + i) 16 i cid _ cid_size (omega arith)

    pub deadline_at : d < 2 ^ 32 → unpack_at 4 40 laid_out ≡ ok d
    deadline_at h = skip_ids 4 40 0 _ refl ∙ unpack_at-be 4 d _ h

    pub payload_length_at : p < 2 ^ 32 → unpack_at 4 44 laid_out ≡ ok p
    payload_length_at h =
        skip_ids 4 44 4 _ refl
        ∙ unpack_at-skip 4 4 4 0 (be 4 d) _ (length-be 4 d) refl
        ∙ unpack_at-be 4 p _ h

    pub length-prefix : length (header_prefix v f mid cid d p) ≡ 52
    length-prefix = omega (
      arith,
      length-append (be 2 v)
          (be 2 f ++ (mid ++ (cid ++ (be 4 d ++ (be 4 p ++ (0 ∷ 0 ∷ 0 ∷ 0 ∷ [])))))),
      length-append (be 2 f) (mid ++ (cid ++ (be 4 d ++ (be 4 p ++ (0 ∷ 0 ∷ 0 ∷ 0 ∷ []))))),
      length-append mid (cid ++ (be 4 d ++ (be 4 p ++ (0 ∷ 0 ∷ 0 ∷ 0 ∷ [])))),
      length-append cid (be 4 d ++ (be 4 p ++ (0 ∷ 0 ∷ 0 ∷ 0 ∷ []))),
      length-append (be 4 d) (be 4 p ++ (0 ∷ 0 ∷ 0 ∷ 0 ∷ [])),
      length-append (be 4 p) (0 ∷ 0 ∷ 0 ∷ 0 ∷ []),
      length-be 2 v,
      length-be 2 f,
      length-be 4 d,
      length-be 4 p,
    )

    pub length-laid_out : length laid_out ≡ 52 + length tail
    length-laid_out =
        ap length (sym prefix_laid_out)
        ∙ length-append (header_prefix v f mid cid d p) tail
        ∙ ap (λ (n : ℕ). n + length tail) length-prefix

    pub take-laid_out : take 52 laid_out ≡ header_prefix v f mid cid d p
    take-laid_out =
        ap (take 52) (sym prefix_laid_out)
        ∙ take-append 52 (header_prefix v f mid cid d p) tail length-prefix

    pub crc_at :
        (n : ℕ) (rest : Bytes) → n < 2 ^ 32 → tail ≡ be 4 n ++ rest → unpack_at 4 52 laid_out ≡ ok n
    crc_at n rest h e =
        ap (unpack_at 4 52) (sym prefix_laid_out)
        ∙ unpack_at-skip 4 52 52 0 (header_prefix v f mid cid d p) tail length-prefix refl
        ∙ ap (unpack_at 4 0) e
        ∙ unpack_at-be 4 n rest h
