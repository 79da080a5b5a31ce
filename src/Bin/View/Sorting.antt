-- ===== src/Bin/View/Sorting.antt =====
-- aicl/bin/codec_view.py: how the constructor sorts core operands followed by extensions.
use aicl.Common.{
  All, List, [], ap, append-nil, append_assoc, arith, false, length, length-append, ltb, pos, refl,
  subst, sym, true, ℕ, ◌++◌, ◌+◌, ◌<◌, ◌^◌, ◌∙◌, ◌∷◌, ◌≡◌, ◌≤◌,
}
use aicl.Bin.Operands.{encode_symbol, encode_value}
use aicl.Bin.Operands.Fits.{Fits}
use aicl.Bin.Packet.{encode_symbols}
use aicl.Bin.Packet.Fields.{IsExtension, raws_of}
use aicl.Bin.Symbol.{Symbol, bytes, is_vendor, kind_of, raw_of, symbol, tag_of, value_of, vendor}
use aicl.Bin.Varint.{encode_varint}
use aicl.Bin.View.{Extensions, add_extension, ext_all, sort_operand}
use aicl.Bin.View.Operands.{Fits-Reads, Reads, ext_all-add_extension, sort_all}
use aicl.Py.Result.{>>=-eq-ok, guard, map_ok-eq-ok, ok, ok-injective, value_error}
use aicl.Py.Struct.{Bytes}

-- Core operands keep their order and leave the extensions alone.
pub sort_all-core :
    (ss core : List Symbol) (es : Extensions)
    → All (λ s. is_vendor (tag_of s) ≡ false) ss
    → sort_all ss (core, es) ≡ (core ++ ss, es)
sort_all-core [] core es h = rw append-nil
sort_all-core (s ∷ ss) core es h =
    rw (h.0) (sort_all-core ss (core ++ (s ∷ [])) es h.1 ∙ rw (append_assoc core (s ∷ []) ss))

-- Extensions leave the core operands alone and are appended under their tags.
pub sort_all-extensions :
    (ss core : List Symbol) (es : Extensions)
    → All IsExtension ss
    → (es' : Extensions) × (sort_all ss (core, es) ≡ (core, es'))
      × ((t : ℕ) → ext_all t es' ≡ ext_all t es ++ raws_of t ss)
sort_all-extensions [] core es h = (es, refl, λ t. rw append-nil)
sort_all-extensions (s ∷ ss) core es h =
    let b : Bytes = raw_of (value_of s) in
    let (es', p, q) = sort_all-extensions ss core (add_extension (tag_of s) b es) h.1 in
    (
      es',
      rw (h.0.tagged) p,
      λ t.
          q t
          ∙ ground (
            arith,
            ext_all-add_extension t (tag_of s) b es,
            append_assoc (ext_all t es) (b ∷ []) (raws_of t ss),
          ),
    )

pub sort_all-append :
    (ss ts : List Symbol) (sorted : List Symbol × Extensions)
    → sort_all (ss ++ ts) sorted ≡ sort_all ts (sort_all ss sorted)
sort_all-append [] ts sorted = refl
sort_all-append (s ∷ ss) ts sorted = sort_all-append ss ts (sort_operand s sorted)

kind_of-vendor : (tag : ℕ) → is_vendor tag ≡ true → kind_of tag ≡ vendor
unfolding kind_of
kind_of-vendor tag h = ground arith

-- A vendor operand takes at least its raw bytes.
extension_size :
    (t : ℕ) (b : Bytes) {out : Bytes}
    → is_vendor t ≡ true
    → encode_symbol (symbol t (bytes b)) ≡ ok out
    → length b ≤ length out
unfolding encode_symbol encode_value
extension_size t b {out} v e =
    let (_, small, e1) = >>=-eq-ok (guard (ltb t 256) value_error) _ e in
    let (body, p, e2) = >>=-eq-ok (encode_value (bytes b) (kind_of t)) _ e1 in
    let kind : encode_value (bytes b) vendor ≡ ok body =
      ap (encode_value (bytes b)) (sym (kind_of-vendor t v)) ∙ p in
    let (size, _, e3) = map_ok-eq-ok (λ size. size ++ b) (encode_varint (pos (length b))) kind in
    let inner : size ++ b ≡ body = e3 in
    let whole : t ∷ body ≡ out = ok-injective e2 in
    omega (arith, ap length whole, ap length inner, length-append size b)

extension_Fits :
    (t : ℕ) (b : Bytes) → is_vendor t ≡ true → length b < 2 ^ 28 → Fits (symbol t (bytes b))
extension_Fits t b v h = (ground arith, rw (kind_of-vendor t v) h)

extension_Reads :
    (s : Symbol) {out : Bytes}
    → IsExtension s
    → encode_symbol s ≡ ok out
    → length out < 2 ^ 28
    → Reads s
extension_Reads s {out} x e small =
    let b : Bytes = raw_of (value_of s) in
    let e1 : encode_symbol (symbol (tag_of s) (bytes b)) ≡ ok out =
      ap encode_symbol (sym x.bytes_only) ∙ e in
    let size : length b ≤ length out = extension_size (tag_of s) b x.tagged e1 in
    subst Reads (sym x.bytes_only) (
      Fits-Reads (symbol (tag_of s) (bytes b)) (extension_Fits (tag_of s) b x.tagged (omega arith)))

-- The operands of the extensions of a payload below 2^28 bytes can be read back.
pub extensions_Reads :
    (ss : List Symbol) {body : Bytes}
    → All IsExtension ss
    → encode_symbols ss ≡ ok body
    → length body < 2 ^ 28
    → All Reads ss
unfolding encode_symbols
extensions_Reads [] h e small = tt
extensions_Reads (s ∷ ss) {body} h e small =
    let (here, p, e1) = >>=-eq-ok (encode_symbol s) _ e in
    let (there, q, e2) = >>=-eq-ok (encode_symbols ss) _ e1 in
    let whole : here ++ there ≡ body = ok-injective e2 in
    let size : length here + length there ≡ length body =
      sym (length-append here there) ∙ ap length whole in
    (extension_Reads s h.0 p (omega arith), extensions_Reads ss h.1 q (omega arith))

pub encode_symbols-append :
    (ss ts : List Symbol) {body : Bytes}
    → encode_symbols (ss ++ ts) ≡ ok body
    → (there : Bytes) × (encode_symbols ts ≡ ok there) × (length there ≤ length body)
unfolding encode_symbols
encode_symbols-append [] ts {body} e = (body, e, omega arith)
encode_symbols-append (s ∷ ss) ts {body} e =
    let (here, p, e1) = >>=-eq-ok (encode_symbol s) _ e in
    let (more, q, e2) = >>=-eq-ok (encode_symbols (ss ++ ts)) _ e1 in
    let whole : here ++ more ≡ body = ok-injective e2 in
    let (there, r, le) = encode_symbols-append ss ts q in
    (there, r, omega (arith, length-append here more, ap length whole))
