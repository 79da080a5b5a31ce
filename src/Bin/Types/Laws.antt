-- ===== src/Bin/Types/Laws.antt =====
-- aicl/bin/types.py: an identity survives its bytes.
use aicl.Common.{
  [], ap, arith, drop-append, false, leb, length, length-append, le→leb, negsuc, pos, refl, sym,
  take-append, take_all, ℕ, ℤ, ◌++◌, ◌+◌, ◌∙◌, ◌∷◌, ◌≡◌,
}
use aicl.Bin.Types.{Identity, identity_from_bytes, identity_to_bytes, pack_len}
use aicl.Py.Ints.{pack_int, unpack_int}
use aicl.Py.Ints.Laws.{unpack_int-pack_int}
use aicl.Py.Result.{>>=-eq-ok, guard, ok, ok-injective, value_error}
use aicl.Py.Struct.{Bytes, be}
use aicl.Py.Utf8.{utf8_decode, utf8_encode}
use aicl.Py.Utf8.Laws.{utf8_decode-utf8_encode}
use native.Mathlib.Decide.{dec_lt}

-- One unsigned byte.
pub pack_byte :
    (z : ℤ) {bs : Bytes} → pack_int false 1 z ≡ ok bs → (n : ℕ) × (z ≡ pos n) × (bs ≡ n ∷ [])
unfolding pack_int be
pack_byte (pos n) {bs} e = elim (dec_lt n 256) [
  | yes small ↦ (n, refl, ground arith)
  | no big ↦ ground arith
]
pack_byte (negsuc n) e = cc

pub pack_len_byte : (n : ℕ) {bs : Bytes} → pack_len 1 n ≡ ok bs → bs ≡ n ∷ []
unfolding pack_int be
pack_len_byte n e = elim (dec_lt n 256) [ yes small ↦ ground arith | no big ↦ ground arith ]

identity_parts :
    (i : Identity) (k : ℕ) (name_bytes inst : Bytes)
    → i.id_type ≡ pos k
    → utf8_decode name_bytes ≡ ok i.name
    → length inst ≡ 4
    → unpack_int false 4 inst ≡ i.instance_id
    → identity_from_bytes (k ∷ length name_bytes ∷ (name_bytes ++ inst)) ≡ ok i
unfolding identity_from_bytes
identity_parts i k name_bytes inst kind decoded size back = rw (
  le→leb (length name_bytes + 4) (length (name_bytes ++ inst))
      (omega (arith, length-append name_bytes inst)),
  take-append (length name_bytes) name_bytes inst refl,
  decoded,
  drop-append (length name_bytes) name_bytes inst refl,
  take_all 4 inst size,
  back,
  ← kind,
)

-- `Identity.from_bytes` restores every identity that `Identity.to_bytes` accepts.
pub identity_round_trip :
    (i : Identity) {bs : Bytes} → identity_to_bytes i ≡ ok bs → identity_from_bytes bs ≡ ok i
unfolding identity_to_bytes
identity_round_trip i {bs} e0 =
    let (name_bytes, p, e1) = >>=-eq-ok (utf8_encode i.name) _ e0 in
    let (_, q, e2) = >>=-eq-ok (guard (leb (length name_bytes) 255) value_error) _ e1 in
    let (kind, r, e3) = >>=-eq-ok (pack_int false 1 i.id_type) _ e2 in
    let (size, s, e4) = >>=-eq-ok (pack_len 1 (length name_bytes)) _ e3 in
    let (inst, t, e5) = >>=-eq-ok (pack_int false 4 i.instance_id) _ e4 in
    let (k, kind_is, kind_bytes) = pack_byte i.id_type r in
    let size_bytes = pack_len_byte (length name_bytes) s in
    let (back, four, _) = unpack_int-pack_int false 4 i.instance_id t in
    let whole : bs ≡ k ∷ length name_bytes ∷ (name_bytes ++ inst) =
      ok-injective (sym e5)
      ∙ ap (λ (u : Bytes). u ++ (size ++ (name_bytes ++ inst))) kind_bytes
      ∙ ap (λ (u : Bytes). k ∷ (u ++ (name_bytes ++ inst))) size_bytes in
    ap identity_from_bytes whole
    ∙ identity_parts i k name_bytes inst kind_is (utf8_decode-utf8_encode i.name p).0 four back
