-- ===== src/Bin/View/Payload.antt =====
-- aicl/bin/codec_packet.py and aicl/bin/codec_view.py: the constructor of PacketView on the payload
-- of `build_payload`.
use aicl.Common.{
  All, All-append, List, [], ap, append_assoc, arith, bit_and, false, length, length-append, ltb,
  pos, refl, sym, ℕ, ◌++◌, ◌<◌, ◌^◌, ◌∙◌, ◌∷◌, ◌≡◌, ◌≤◌,
}
use aicl.Bin.Header.{max_payload}
use aicl.Bin.Operands.{encode_symbol, encode_value}
use aicl.Bin.Operands.Fits.{Fits}
use aicl.Bin.Packet.{
  Packet, append_extensions, build_payload, encode_symbols, extension_fields, run_fields,
}
use aicl.Bin.Packet.Fields.{
  IsExtension, extension_fields_vendor, gather, run_fields-IsExtension, run_fields-sequence,
  sequence,
}
use aicl.Bin.Symbol.{Symbol, is_vendor, kind_of, symbol, tag_of}
use aicl.Bin.Varint.{decode_varint, encode_varint}
use aicl.Bin.Varint.RoundTrip.{encode_varint_codes}
use aicl.Bin.View.{Extensions, ext_all, read_operands, read_payload}
use aicl.Bin.View.Operands.{Fits-Reads, Reads, read_operands-encode_symbols, sort_all}
use aicl.Bin.View.Sorting.{
  encode_symbols-append, extensions_Reads, sort_all-append, sort_all-core, sort_all-extensions,
}
use aicl.Py.Result.{>>=-eq-ok, guard, map_ok-eq-ok, ok, ok-injective, value_error, ◌>>=◌}
use aicl.Py.Struct.{Bytes}

-- The operands that a sender may put into a packet: they fit, and their tags are not the vendor's.
abbrev pub IsCore : Symbol → Type 0
IsCore s = Fits s × (is_vendor (tag_of s) ≡ false)

core_parts :
    (ss : List Symbol) → All IsCore ss → All Reads ss × All (λ s. is_vendor (tag_of s) ≡ false) ss
core_parts [] h = (tt, tt)
core_parts (s ∷ ss) h =
    let (reads, plain) = core_parts ss h.1 in ((Fits-Reads s h.0.0, reads), (h.0.1, plain))

-- An operand takes at least one byte.
pub encode_symbol_room : (s : Symbol) {out : Bytes} → encode_symbol s ≡ ok out → 1 ≤ length out
unfolding encode_symbol
encode_symbol_room (symbol t v) {out} e =
    let (_, _, e1) = >>=-eq-ok (guard (ltb t 256) value_error) _ e in
    let (rest, _, e2) = >>=-eq-ok (encode_value v (kind_of t)) _ e1 in
    let whole : t ∷ rest ≡ out = ok-injective e2 in omega (arith, ap length whole)

encode_symbols_room :
    (ss : List Symbol) {body : Bytes} → encode_symbols ss ≡ ok body → length ss ≤ length body
unfolding encode_symbols
encode_symbols_room [] e = omega arith
encode_symbols_room (s ∷ ss) {body} e =
    let (here, p, e1) = >>=-eq-ok (encode_symbol s) _ e in
    let (there, q, e2) = >>=-eq-ok (encode_symbols ss) _ e1 in
    let whole : here ++ there ≡ body = ok-injective e2 in
    omega (
      arith,
      ap length whole,
      length-append here there,
      encode_symbol_room s p,
      encode_symbols_room ss q,
    )

-- A nonempty operand section goes through the count and the operands.
read_payload_counted :
    (operation : ℕ) (src : Bytes) {count : ℕ} {rest : Bytes}
    → decode_varint src ≡ ok (count, rest)
    → read_payload (operation ∷ src)
      ≡ (do (core, es) ← read_operands count rest ([], []); ok (operation, core, es))
unfolding read_payload decode_varint
read_payload_counted operation [] e = cc
read_payload_counted operation (b ∷ src) e = rw e refl

-- The parts of a payload.
record Parts (p : Packet) (payload : Bytes) : Type 0 where
  added : List Symbol
  count : Bytes
  body : Bytes
  ran : run_fields (extension_fields p) ≡ ok added
  counted : encode_varint (pos (length (p.symbols ++ added))) ≡ ok count
  encoded : encode_symbols (p.symbols ++ added) ≡ ok body
  whole : bit_and p.operation 0xFF ∷ (count ++ body) ≡ payload

build_payload-Parts :
    (p : Packet) {payload : Bytes} → build_payload p ≡ ok payload → Parts p payload
unfolding build_payload append_extensions
build_payload-Parts p {payload} built =
    let (operands, a, e1) = >>=-eq-ok (append_extensions p) _ built in
    let (count, b, e2) = >>=-eq-ok (encode_varint (pos (length operands))) _ e1 in
    let (body, c, e3) = >>=-eq-ok (encode_symbols operands) _ e2 in
    let (added, ran, joined) =
      map_ok-eq-ok (λ x. p.symbols ++ x) (run_fields (extension_fields p)) a in
    record {
      added = added;
      count = count;
      body = body;
      ran = ran;
      counted = ap (λ (ss : List Symbol). encode_varint (pos (length ss))) joined ∙ b;
      encoded = ap encode_symbols joined ∙ c;
      whole = ok-injective e3;
    }

module _ (p : Packet) {payload : Bytes} (core : All IsCore p.symbols)
    (built : build_payload p ≡ ok payload) (small : length payload ≤ max_payload) where
  parts : Parts p payload
  parts = build_payload-Parts p built

  body_small : length parts.body < 2 ^ 28
  body_small = omega (arith, ap length parts.whole, length-append parts.count parts.body)

  count_small : length (p.symbols ++ parts.added) < 2 ^ 28
  count_small =
      omega (arith, encode_symbols_room (p.symbols ++ parts.added) parts.encoded, body_small)

  added_IsExtension : All IsExtension parts.added
  added_IsExtension =
      run_fields-IsExtension (extension_fields p) (extension_fields_vendor p) parts.ran

  operands_Reads : All Reads (p.symbols ++ parts.added)
  operands_Reads =
      let (there, wrote, le) = encode_symbols-append p.symbols parts.added parts.encoded in
      All-append Reads p.symbols parts.added (core_parts p.symbols core).0
        (extensions_Reads parts.added added_IsExtension wrote (omega (arith, body_small)))

  count_reads :
      (rest : Bytes)
      → decode_varint (parts.count ++ rest) ≡ ok (length (p.symbols ++ parts.added), rest)
  count_reads rest =
      let (out, wrote, reads) =
        encode_varint_codes (length (p.symbols ++ parts.added)) count_small in
      let same : out ≡ parts.count = ok-injective (sym wrote ∙ parts.counted) in
      ap (λ (b : Bytes). decode_varint (b ++ rest)) (sym same) ∙ reads rest

  -- What the view holds of the payload, whatever bytes follow it.
  pub read_payload-build_payload :
      (es : Extensions) × ((rest : Bytes)
        → read_payload (payload ++ rest) ≡ ok (bit_and p.operation 0xFF, p.symbols, es))
      × ((t : ℕ) → sequence (gather t (extension_fields p)) ≡ ok (ext_all t es))
  unfolding parts ext_all
  read_payload-build_payload =
      let plain = (core_parts p.symbols core).1 in
      let (es, kept, found) = sort_all-extensions parts.added p.symbols [] added_IsExtension in
      let sorted : sort_all (p.symbols ++ parts.added) ([], []) ≡ (p.symbols, es) =
        sort_all-append p.symbols parts.added ([], [])
        ∙ ap (sort_all parts.added) (sort_all-core p.symbols [] [] plain)
        ∙ kept in
      let read : (rest : Bytes)
          → read_operands (length (p.symbols ++ parts.added)) (parts.body ++ rest) ([], [])
            ≡ ok (p.symbols, es) =
        λ rest.
          read_operands-encode_symbols (p.symbols ++ parts.added) ([], []) rest operands_Reads
            parts.encoded
          ∙ ap (λ (x : List Symbol × Extensions). ok x) sorted in
      let counted : (rest : Bytes)
          → decode_varint ((parts.count ++ parts.body) ++ rest)
            ≡ ok (length (p.symbols ++ parts.added), parts.body ++ rest) =
        λ rest.
          ap decode_varint (append_assoc parts.count parts.body rest)
          ∙ count_reads (parts.body ++ rest) in
      (
        es,
        λ rest.
            ap (λ (b : Bytes). read_payload (b ++ rest)) (sym parts.whole)
            ∙ read_payload_counted (bit_and p.operation 0xFF) ((parts.count ++ parts.body) ++ rest)
                (counted rest)
            ∙ rw (read rest) refl,
        λ t. run_fields-sequence t (extension_fields p) parts.ran ∙ ap ok (sym (found t)),
      )
