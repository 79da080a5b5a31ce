-- ===== src/Bin/Access/Metadata.antt =====
-- aicl/bin/codec_packet.py and aicl/bin/codec_view.py: the metadata of a packet are read back.
use aicl.Common.{
  List, [], ap, append_assoc, arith, drop, drop-append, length, length-append, le→ltb, lt→ltb, refl,
  some, subst, suc, sym, take-append, zero, ℕ, ◌++◌, ◌+◌, ◌<◌, ◌^◌, ◌∙◌, ◌∷◌, ◌≡◌, ◌≤◌,
}
use aicl.Bin.Access.Fixed.{front_byte}
use aicl.Bin.Access.Infos.{read_entry, read_metadata, text_set}
use aicl.Bin.Packet.{pack_metadata}
use aicl.Bin.Types.{pack_len}
use aicl.Bin.Types.Laws.{pack_len_byte}
use aicl.Py.Ints.{pack_int}
use aicl.Py.Result.{>>=-eq-ok, ok, ok-injective}
use aicl.Py.Struct.{Bytes, be, length-be, unpack_at-append}
use aicl.Py.Utf8.{Str, utf8_encode}
use aicl.Py.Utf8.Laws.{utf8_decode-utf8_encode}
use native.Mathlib.Decide.{dec_lt}

-- The dict that a run of `result[k] = v` leaves.
unfoldable pub text_update : List (Str × Str) → List (Str × Str) → List (Str × Str)
text_update d [] = d
text_update d ((k, v) ∷ m) = text_update (text_set d k v) m

pack_len_two : (n : ℕ) {bs : Bytes} → pack_len 2 n ≡ ok bs → (n < 256 ^ 2) × (bs ≡ be 2 n)
unfolding pack_int
pack_len_two n e = elim (dec_lt n 65536) [
  | yes small ↦ (omega arith, ground (arith, e, lt→ltb n 65536 small))
  | no big ↦ absurd (grind (arith, e, le→ltb n 65536 (omega arith)))
]

read_entry-packed :
    (k v : Str) (kb vb there : Bytes)
    → utf8_encode k ≡ ok kb
    → utf8_encode v ≡ ok vb
    → length vb < 256 ^ 2
    → read_entry (length kb) (kb ++ (be 2 (length vb) ++ (vb ++ there))) ≡ ok (some (k, v, there))
unfolding read_entry
read_entry-packed k v kb vb there hk hv small =
    let rest : Bytes = be 2 (length vb) ++ (vb ++ there) in
    let cut : drop (length kb + 2) (kb ++ rest) ≡ vb ++ there =
      ap (drop (length kb + 2)) (sym (append_assoc kb (be 2 (length vb)) (vb ++ there)))
      ∙ drop-append (length kb + 2) (kb ++ be 2 (length vb)) (vb ++ there)
          (omega (arith, length-append kb (be 2 (length vb)), length-be 2 (length vb))) in
    rw (
      le→ltb (length (kb ++ rest)) (length kb) (omega (arith, length-append kb rest)),
      take-append (length kb) kb rest refl,
      (utf8_decode-utf8_encode k hk).0,
      unpack_at-append 2 (length kb) (length vb) kb (vb ++ there) refl small,
      cut,
      le→ltb (length (vb ++ there)) (length vb) (omega (arith, length-append vb there)),
      take-append (length vb) vb there refl,
      (utf8_decode-utf8_encode v hv).0,
      drop-append (length vb) vb there refl,
    )

-- One round of the loop, with fuel for the rest.
read_round :
    (k v : Str) (kb vb there : Bytes) (m d : List (Str × Str)) (fuel : ℕ)
    → utf8_encode k ≡ ok kb
    → utf8_encode v ≡ ok vb
    → length vb < 256 ^ 2
    → length (length kb ∷ (kb ++ (be 2 (length vb) ++ (vb ++ there)))) ≤ fuel
    → ((f : ℕ)
        → length there ≤ f
        → read_metadata f there (text_set d k v) ≡ ok (text_update (text_set d k v) m))
    → read_metadata fuel (length kb ∷ (kb ++ (be 2 (length vb) ++ (vb ++ there)))) d
      ≡ ok (text_update (text_set d k v) m)
unfolding read_metadata
read_round k v kb vb there m d zero hk hv small h later = absurd (omega arith)
read_round k v kb vb there m d (suc f) hk hv small h later =
    (rw (read_entry-packed k v kb vb there hk hv small))
    ∙ later f (
        omega (
          arith,
          length-append kb (be 2 (length vb) ++ (vb ++ there)),
          length-append (be 2 (length vb)) (vb ++ there),
          length-append vb there,
        ))

pub read_metadata-pack_metadata :
    (m d : List (Str × Str)) (fuel : ℕ) {b : Bytes}
    → length b ≤ fuel
    → pack_metadata m ≡ ok b
    → read_metadata fuel b d ≡ ok (text_update d m)
unfolding read_metadata pack_metadata text_update
read_metadata-pack_metadata [] d fuel h e =
    ap (λ (x : Bytes). read_metadata fuel x d) (sym (ok-injective e))
read_metadata-pack_metadata ((k, v) ∷ m) d fuel {b} h e =
    let (kb, hk, e1) = >>=-eq-ok (utf8_encode k) _ e in
    let (vb, hv, e2) = >>=-eq-ok (utf8_encode v) _ e1 in
    let (kl, hkl, e3) = >>=-eq-ok (pack_len 1 (length kb)) _ e2 in
    let (vl, hvl, e4) = >>=-eq-ok (pack_len 2 (length vb)) _ e3 in
    let (there, ht, e5) = >>=-eq-ok (pack_metadata m) _ e4 in
    let (small, vl_is) = pack_len_two (length vb) hvl in
    let rest : Bytes = kb ++ (be 2 (length vb) ++ (vb ++ there)) in
    let is : length kb ∷ rest ≡ b =
      sym (
        front_byte (pack_len_byte (length kb) hkl)
          (ap (λ (x : Bytes). kb ++ (x ++ (vb ++ there))) vl_is))
      ∙ ok-injective e5 in
    ap (λ (x : Bytes). read_metadata fuel x d) (sym is)
    ∙ read_round k v kb vb there m d fuel hk hv small
        (subst (λ (x : Bytes). length x ≤ fuel) (sym is) h)
        (λ f enough. read_metadata-pack_metadata m (text_set d k v) f enough ht)
