-- ===== src/Bin/Operands/RoundTrip.antt =====
-- aicl/bin/operands.py: `decode_symbol` undoes `encode_symbol` on the operands that fit.
use aicl.Common.{
  [], ap, append_assoc, arith, false, length, length-append, lt→ltb, refl, same_list, same_list_sym,
  suc, zero, ℕ, ◌++◌, ◌+◌, ◌<◌, ◌^◌, ◌∙◌, ◌∷◌, ◌≡◌, ◌≤◌,
}
use aicl.Bin.Operands.{
  decode_entries, decode_items, decode_symbol, decode_value, decode_within, encode_entries,
  encode_items, encode_symbol,
}
use aicl.Bin.Operands.Fits.{Fits, FitsEntries, FitsItems, FitsStr, FitsValue, Fresh}
use aicl.Bin.Operands.Leaves.{
  Codes, CodesValue, boolean_codes, buf_ref_codes, double_codes, handle_codes, integer_codes,
  null_codes, raw_codes, ref_codes, single_codes, string_codes, uuid_codes, vendor_codes,
}
use aicl.Bin.Symbol.{
  Entries, Kind, Symbol, Symbols, Value, bool, boolean, buf_ref, byte_string, bytes, cons,
  count_entries, count_symbols, dict, dict_set, double, end, entry, float, handle, int, integer,
  items, kind_of, list, mapping, nil, nothing, null, ref, single, str, string, symbol, triple, uuid,
  vendor,
}
use aicl.Bin.Varint.RoundTrip.{encode_varint_codes}
use aicl.Py.Result.{ok, symbol_error}
use aicl.Py.Struct.{Bytes, read_bytes-append}
use aicl.Py.Utf8.{Str}
use aicl.Py.Utf8.Laws.{utf8_decode-utf8_encode}

abbrev join : Entries → Entries → Entries
join end fs = fs
join (entry k s es) fs = entry k s (join es fs)

join-end : (es : Entries) → join es end ≡ es
join-end end = refl
join-end (entry k s es) = ap (entry k s) (join-end es)

join_assoc :
    (es : Entries) (k : Str) (s : Symbol) (fs : Entries)
    → join (join es (entry k s end)) fs ≡ join es (entry k s fs)
join_assoc end k s fs = refl
join_assoc (entry j t es) k s fs = ap (entry j t) (join_assoc es k s fs)

dict_set-Fresh :
    (es : Entries) (k : Str) (s : Symbol) → Fresh k es → dict_set es k s ≡ join es (entry k s end)
unfolding dict_set
dict_set-Fresh end k s h = refl
dict_set-Fresh (entry j t es) k s h = rw (h.0) (ap (entry j t) (dict_set-Fresh es k s h.1))

-- No key of the second dict is in the first.
abbrev Apart : Entries → Entries → Type 0
Apart es end = Unit {0}
Apart es (entry k s fs) = Fresh k es × Apart es fs

Apart-end : (fs : Entries) → Apart end fs
Apart-end end = tt
Apart-end (entry k s fs) = (tt, Apart-end fs)

Fresh-join :
    (j k : Str) (s : Symbol) (es : Entries)
    → Fresh j es
    → same_list k j ≡ false
    → Fresh j (join es (entry k s end))
Fresh-join j k s end h e = (e, tt)
Fresh-join j k s (entry i t es) h e = (h.0, Fresh-join j k s es h.1 e)

Apart-join :
    (es fs : Entries) (k : Str) (s : Symbol)
    → Apart es fs
    → Fresh k fs
    → Apart (join es (entry k s end)) fs
Apart-join es end k s h n = tt
Apart-join es (entry j t fs) k s h n =
    (Fresh-join j k s es h.0 (same_list_sym k j ∙ n.0), Apart-join es fs k s h.1 n.1)

abbrev CodesSymbol : Symbol → Type 0
CodesSymbol s = Codes (encode_symbol s) decode_within s

abbrev CodesItems : Symbols → Type 0
CodesItems ss = Codes (encode_items ss) (λ f. decode_items (decode_within f) (count_symbols ss)) ss

record CodesEntries (es : Entries) : Type 0 where
  out : Bytes
  wrote : encode_entries es ≡ ok out
  reads :
      (f : ℕ) (rest : Bytes) (old : Entries)
      → Apart old es
      → length out ≤ f
      → decode_entries (decode_within f) (count_entries es) old (out ++ rest)
        ≡ ok (join old es, rest)

symbol_codes :
    (tag : ℕ) (v : Value) → tag < 256 → CodesValue v (kind_of tag) → CodesSymbol (symbol tag v)
unfolding encode_symbol decode_within
symbol_codes tag v h c = record {
  out = tag ∷ c.out;
  wrote = rw (lt→ltb tag 256 h, c.wrote);
  reads = go;
}
  where
    go :
        (f : ℕ) (rest : Bytes)
        → suc (length c.out) ≤ f
        → decode_within f (tag ∷ (c.out ++ rest)) ≡ ok (symbol tag v, rest)
    go zero rest k = absurd (omega arith)
    go (suc f) rest k = rw (c.reads f rest (omega arith))

nil_codes : CodesItems nil
unfolding encode_items decode_items
nil_codes = record { out = []; wrote = refl; reads = λ f rest _. refl }

cons_codes : (s : Symbol) (ss : Symbols) → CodesSymbol s → CodesItems ss → CodesItems (cons s ss)
unfolding encode_symbol decode_items
cons_codes s ss c d = record {
  out = c.out ++ d.out;
  wrote = rw (c.wrote, d.wrote);
  reads = λ f rest k.
      let fits : length c.out + length d.out ≤ f = omega (arith, length-append c.out d.out) in
      rw (
        append_assoc c.out d.out rest,
        c.reads f (d.out ++ rest) (omega arith),
        d.reads f rest (omega arith),
      );
}

list_codes : (ss : Symbols) → count_symbols ss < 2 ^ 28 → CodesItems ss → CodesValue (items ss) list
unfolding encode_symbol decode_value
list_codes ss h c =
    let (count, wrote, read) = encode_varint_codes (count_symbols ss) h in
    record {
      out = count ++ c.out;
      wrote = rw (wrote, c.wrote);
      reads = λ f rest k.
          let fits : length count + length c.out ≤ f = omega (arith, length-append count c.out) in
          rw (append_assoc count c.out rest, read (c.out ++ rest), c.reads f rest (omega arith));
    }

end_codes : CodesEntries end
unfolding encode_entries decode_entries
end_codes = record { out = []; wrote = refl; reads = λ f rest old _ _. rw (join-end old) }

entry_codes :
    (k : Str) (s : Symbol) (es : Entries)
    → FitsStr k
    → Fresh k es
    → CodesSymbol s
    → CodesEntries es
    → CodesEntries (entry k s es)
unfolding encode_symbol decode_entries
entry_codes k s es (key, encoded, small) new c d =
    let (size, wrote, read) = encode_varint_codes (length key) small in
    let (decoded, _) = utf8_decode-utf8_encode k encoded in
    record {
      out = size ++ (key ++ (c.out ++ d.out));
      wrote = rw (encoded, wrote, c.wrote, d.wrote);
      reads = λ f rest old apart room.
          let fits : length c.out + length d.out ≤ f = omega (
            arith,
            length-append size (key ++ (c.out ++ d.out)),
            length-append key (c.out ++ d.out),
            length-append c.out d.out,
          ) in
          rw (
            append_assoc size (key ++ (c.out ++ d.out)) rest,
            append_assoc key (c.out ++ d.out) rest,
            append_assoc c.out d.out rest,
            read (key ++ (c.out ++ (d.out ++ rest))),
            read_bytes-append symbol_error (length key) key (c.out ++ (d.out ++ rest)) refl,
            decoded,
            c.reads f (d.out ++ rest) (omega arith),
            dict_set-Fresh old k s apart.0,
            d.reads f rest (join old (entry k s end)) (Apart-join old es k s apart.1 new)
                (omega arith),
            join_assoc old k s es,
          );
    }

mapping_codes :
    (es : Entries) → count_entries es < 2 ^ 28 → CodesEntries es → CodesValue (dict es) mapping
unfolding encode_symbol decode_value
mapping_codes es h c =
    let (count, wrote, read) = encode_varint_codes (count_entries es) h in
    record {
      out = count ++ c.out;
      wrote = rw (wrote, c.wrote);
      reads = λ f rest k.
          let fits : length count + length c.out ≤ f = omega (arith, length-append count c.out) in
          rw (
            append_assoc count c.out rest,
            read (c.out ++ rest),
            c.reads f rest end (Apart-end es) (omega arith),
          );
    }

mutual
  codes_symbol : (s : Symbol) → Fits s → CodesSymbol s
  codes_symbol (symbol tag v) h = symbol_codes tag v h.0 (codes_value v (kind_of tag) h.1)

  codes_value : (v : Value) (k : Kind) → FitsValue v k → CodesValue v k
  codes_value (int z) (integer s w) h = integer_codes z s w h
  codes_value (int z) handle h = handle_codes z h
  codes_value (int z) ref h = ref_codes z h
  codes_value (float d) single h = single_codes d h
  codes_value (float d) double h = double_codes d h
  codes_value (bool b) boolean h = boolean_codes b
  codes_value (str s) string h = string_codes s h
  codes_value (bytes b) byte_string h = raw_codes b h
  codes_value (bytes b) uuid h = uuid_codes b h
  codes_value (bytes b) vendor h = vendor_codes b h
  codes_value (triple a b c) buf_ref h = buf_ref_codes a b c h.0 h.1 h.2
  codes_value (items ss) list h = list_codes ss h.0 (codes_items ss h.1)
  codes_value (dict es) mapping h = mapping_codes es h.0 (codes_entries es h.1)
  codes_value nothing null h = null_codes
  codes_value _ _ h = absurd h

  codes_items : (ss : Symbols) → FitsItems ss → CodesItems ss
  codes_items nil h = nil_codes
  codes_items (cons s ss) h = cons_codes s ss (codes_symbol s h.0) (codes_items ss h.1)

  codes_entries : (es : Entries) → FitsEntries es → CodesEntries es
  codes_entries end h = end_codes
  codes_entries (entry k s es) h =
      entry_codes k s es h.0 h.3 (codes_symbol s h.1) (codes_entries es h.2)

-- What `encode_symbol` writes of an operand that fits, with fuel for each byte of it.
pub encode_symbol_codes :
    (s : Symbol)
    → Fits s
    → (out : Bytes) × (encode_symbol s ≡ ok out)
      × ((f : ℕ) (rest : Bytes) → length out ≤ f → decode_within f (out ++ rest) ≡ ok (s, rest))
encode_symbol_codes s h = let c = codes_symbol s h in (c.out, c.wrote, c.reads)

-- `encode_symbol` succeeds on every operand that fits, nested lists and dicts included, and
-- `decode_symbol` reads it back off the front of any input, leaving exactly what follows it.
pub decode_symbol-encode_symbol :
    (s : Symbol) (rest : Bytes)
    → Fits s
    → (out : Bytes) × (encode_symbol s ≡ ok out) × (decode_symbol (out ++ rest) ≡ ok (s, rest))
unfolding decode_symbol
decode_symbol-encode_symbol s rest h =
    let (out, wrote, reads) = encode_symbol_codes s h in
    (out, wrote, reads (length (out ++ rest)) rest (omega (arith, length-append out rest)))
