-- ===== src/Bin/Operands/Total.antt =====
-- aicl/bin/operands.py: `decode_symbol` ends on every input and takes at least one byte.
use aicl.Common.{[], arith, length, length-drop, ltb, suc, zero, ℕ, ◌<◌, ◌∷◌, ◌≤◌}
use aicl.Bin.Operands.{
  Decoder, decode_entries, decode_items, decode_sized, decode_symbol, decode_value, decode_within,
}
use aicl.Bin.Symbol.{
  Entries, Kind, Symbol, boolean, buf_ref, byte_string, dict_set, double, end, handle, integer,
  kind_of, list, mapping, null, ref, single, string, unknown, uuid, vendor,
}
use aicl.Bin.Varint.Decode.{decode_varint-Ensures}
use aicl.Py.Result.{symbol_error}
use aicl.Py.Result.Ensures.{Ensures, Ensures-bind, Ensures-if, holds, symbol_raises, weaken}
use aicl.Py.Struct.{Bytes, read_bytes}
use aicl.Py.Utf8.Total.{utf8_decode-Ensures}
use native.Mathlib.Nat.{le_refl}

read_bytes-Ensures :
    (n : ℕ) (src : Bytes) → Ensures (λ r. length r.1 ≤ length src) (read_bytes symbol_error n src)
unfolding read_bytes
read_bytes-Ensures n src =
    Ensures-if (ltb (length src) n) (symbol_raises) (holds (omega (arith, length-drop n src)))

decode_sized-Ensures : (src : Bytes) → Ensures (λ r. length r.1 ≤ length src) (decode_sized src)
unfolding decode_sized
decode_sized-Ensures src =
    Ensures-bind (decode_varint-Ensures src)
      λ (n, p) h. weaken (λ r h'. omega arith) (read_bytes-Ensures n p)

-- What the recursive call promises on inputs of at most `f` bytes.
module _ (f : ℕ) (inner : Decoder Symbol)
    (promise : (src : Bytes)
      → length src ≤ f
      → Ensures (λ r. length r.1 < length src) (inner src)) where
  decode_items-Ensures :
      (n : ℕ) (src : Bytes)
      → length src ≤ f
      → Ensures (λ r. length r.1 ≤ length src) (decode_items inner n src)
  unfolding decode_items
  decode_items-Ensures zero src h = holds (le_refl _)
  decode_items-Ensures (suc n) src h = Ensures-bind (promise src h) λ (s, p) h'.
      Ensures-bind (decode_items-Ensures n p (omega arith)) λ (ss, rest) h''. holds (omega arith)

  decode_entries-Ensures :
      (n : ℕ) (es : Entries) (src : Bytes)
      → length src ≤ f
      → Ensures (λ r. length r.1 ≤ length src) (decode_entries inner n es src)
  unfolding decode_entries
  decode_entries-Ensures zero es src h = holds (le_refl _)
  decode_entries-Ensures (suc n) es src h = Ensures-bind (decode_varint-Ensures src) λ (size, p) hp.
      Ensures-bind (read_bytes-Ensures size p) λ (key, q) hq.
        Ensures-bind (utf8_decode-Ensures key) λ k _.
          Ensures-bind (promise q (omega arith)) λ (s, rest) hr.
            weaken (λ r h'. omega arith)
              (decode_entries-Ensures n (dict_set es k s) rest (omega arith))

  decode_value-Ensures :
      (k : Kind) (src : Bytes)
      → length src ≤ f
      → Ensures (λ r. length r.1 ≤ length src) (decode_value inner k src)
  unfolding decode_value
  decode_value-Ensures (integer s w) src h =
      Ensures-bind (read_bytes-Ensures w src) λ (b, rest) h. holds h
  decode_value-Ensures single src h = Ensures-bind (read_bytes-Ensures 4 src) λ (b, rest) h. holds h
  decode_value-Ensures double src h = Ensures-bind (read_bytes-Ensures 8 src) λ (b, rest) h. holds h
  decode_value-Ensures boolean [] h = symbol_raises
  decode_value-Ensures boolean (b ∷ rest) h =
      Ensures-if (ltb 1 b) (symbol_raises) (holds (omega arith))
  decode_value-Ensures string src h =
      Ensures-bind (decode_sized-Ensures src)
        λ (b, rest) h. Ensures-bind (utf8_decode-Ensures b) λ s _. holds h
  decode_value-Ensures byte_string src h =
      Ensures-bind (decode_sized-Ensures src) λ (b, rest) h. holds h
  decode_value-Ensures uuid src h = Ensures-bind (read_bytes-Ensures 16 src) λ (b, rest) h. holds h
  decode_value-Ensures handle src h = Ensures-bind (read_bytes-Ensures 8 src) λ (b, rest) h. holds h
  decode_value-Ensures ref src h = Ensures-bind (read_bytes-Ensures 2 src) λ (b, rest) h. holds h
  decode_value-Ensures buf_ref src h =
      Ensures-bind (read_bytes-Ensures 16 src) λ (b, rest) h. holds h
  decode_value-Ensures list src h = Ensures-bind (decode_varint-Ensures src) λ (n, p) hp.
      Ensures-bind (decode_items-Ensures n p (omega arith)) λ (ss, rest) h'. holds (omega arith)
  decode_value-Ensures mapping src h = Ensures-bind (decode_varint-Ensures src) λ (n, p) hp.
      Ensures-bind (decode_entries-Ensures n end p (omega arith))
        λ (es, rest) h'. holds (omega arith)
  decode_value-Ensures null src h = holds (le_refl _)
  decode_value-Ensures vendor src h = Ensures-bind (decode_sized-Ensures src) λ (b, rest) h. holds h
  decode_value-Ensures unknown src h = symbol_raises

pub decode_within-Ensures :
    (f : ℕ) (src : Bytes)
    → length src ≤ f
    → Ensures (λ r. length r.1 < length src) (decode_within f src)
unfolding decode_within
decode_within-Ensures zero [] h = symbol_raises
decode_within-Ensures (suc f) [] h = symbol_raises
decode_within-Ensures zero (tag ∷ src) h = absurd (omega arith)
decode_within-Ensures (suc f) (tag ∷ src) h =
    Ensures-bind
      (decode_value-Ensures f (decode_within f) (decode_within-Ensures f) (kind_of tag) src
        (omega arith))
      λ (v, rest) h'. holds (omega arith)

-- `decode_symbol` ends on every input, however deep the operands in it are nested: the model's fuel
-- always suffices. When it succeeds it has taken at least one byte.
pub decode_symbol_total : (src : Bytes) → Ensures (λ r. length r.1 < length src) (decode_symbol src)
unfolding decode_symbol
decode_symbol_total src = decode_within-Ensures (length src) src (le_refl _)
