-- ===== src/Bin/Operands.antt =====
-- aicl/bin/operands.py: one operand to wire bytes and back.
pub mod Fits
pub mod Leaves
pub mod RoundTrip
pub mod Total
use aicl.Common.{
  [], drop, false, if◌then◌else◌, length, ltb, pos, suc, take, zero, ℕ, ◌++◌, ◌==◌, ◌∷◌,
}
use aicl.Bin.Symbol.{
  Entries, Kind, Symbol, Symbols, Value, bool, boolean, buf_ref, byte_string, bytes, cons,
  count_entries, count_symbols, dict, dict_set, double, end, entry, float, handle, int, integer,
  items, kind_of, list, mapping, nil, nothing, null, ref, single, str, string, symbol, triple,
  unknown, uuid, vendor,
}
use aicl.Bin.Varint.{decode_varint, encode_varint}
use aicl.Py.Float.{narrow, widen}
use aicl.Py.Ints.{pack_int, unpack_int}
use aicl.Py.Result.{
  Result, err, guard, map_ok, ok, out_of_fuel, symbol_error, type_error, value_error, ◌>>=◌, ◌>>◌,
}
use aicl.Py.Struct.{Bytes, be, from_be, read_bytes}
use aicl.Py.Utf8.{utf8_decode, utf8_encode}

-- `encode_symbol`. A value of another Python type than the one that `Symbol` documents for the tag
-- is outside the model and stands as a TypeError.
unfoldable mutual
  pub encode_symbol : Symbol → Result Bytes
  encode_symbol (symbol tag v) = do
    guard (ltb tag 256) value_error
    body ← encode_value v (kind_of tag)
    ok (tag ∷ body)

  pub encode_value : Value → Kind → Result Bytes
  encode_value (int z) (integer s w) = pack_int s w z
  encode_value (int z) handle = pack_int false 8 z
  encode_value (int z) ref = pack_int false 2 z
  encode_value (float d) single = map_ok (be 4) (narrow d)
  encode_value (float d) double = ok (be 8 d)
  encode_value (bool b) boolean = ok ((if b then 1 else 0) ∷ [])
  encode_value (str s) string = do
    encoded ← utf8_encode s
    size ← encode_varint (pos (length encoded))
    ok (size ++ encoded)
  encode_value (bytes b) byte_string = map_ok (λ size. size ++ b) (encode_varint (pos (length b)))
  encode_value (bytes b) uuid = if length b == 16 then ok b else err symbol_error
  encode_value (bytes b) vendor = map_ok (λ size. size ++ b) (encode_varint (pos (length b)))
  encode_value (triple a b c) buf_ref = do
    id ← pack_int false 8 a
    offset ← pack_int false 4 b
    size ← pack_int false 4 c
    ok (id ++ (offset ++ size))
  encode_value (items ss) list = do
    count ← encode_varint (pos (count_symbols ss))
    body ← encode_items ss
    ok (count ++ body)
  encode_value (dict es) mapping = do
    count ← encode_varint (pos (count_entries es))
    body ← encode_entries es
    ok (count ++ body)
  encode_value nothing null = ok []
  encode_value _ unknown = err symbol_error
  encode_value _ _ = err type_error

  pub encode_items : Symbols → Result Bytes
  encode_items nil = ok []
  encode_items (cons s ss) = do here ← encode_symbol s; there ← encode_items ss; ok (here ++ there)

  pub encode_entries : Entries → Result Bytes
  encode_entries end = ok []
  encode_entries (entry k s es) = do
    key ← utf8_encode k
    size ← encode_varint (pos (length key))
    here ← encode_symbol s
    there ← encode_entries es
    ok (size ++ (key ++ (here ++ there)))

-- A decoder gets `data[pos:]` and returns a value with what follows it, in place of a new position.
abbrev pub Decoder : Type 0 → Type 0
Decoder A = Bytes → Result (A × Bytes)

-- `for _ in range(count)` of a list, with `inner` for the recursive call.
unfoldable pub decode_items : Decoder Symbol → ℕ → Decoder Symbols
decode_items inner zero src = ok (nil, src)
decode_items inner (suc n) src = do
  (s, p) ← inner src
  (ss, rest) ← decode_items inner n p
  ok (cons s ss, rest)

-- The same of a dict, filled entry by entry.
unfoldable pub decode_entries : Decoder Symbol → ℕ → Entries → Decoder Entries
decode_entries inner zero es src = ok (es, src)
decode_entries inner (suc n) es src = do
  (size, p) ← decode_varint src
  (key, q) ← read_bytes symbol_error size p
  k ← utf8_decode key
  (s, rest) ← inner q
  decode_entries inner n (dict_set es k s) rest

-- A length, and that many bytes.
unfoldable pub decode_sized : Decoder Bytes
decode_sized src = do (size, p) ← decode_varint src; read_bytes symbol_error size p

unfoldable pub decode_value : Decoder Symbol → Kind → Decoder Value
unfolding decode_sized decode_items decode_entries
decode_value inner (integer s w) src = do
  (b, rest) ← read_bytes symbol_error w src
  ok (int (unpack_int s w b), rest)
decode_value inner single src = do
  (b, rest) ← read_bytes symbol_error 4 src
  ok (float (widen (from_be 0 b)), rest)
decode_value inner double src = do
  (b, rest) ← read_bytes symbol_error 8 src
  ok (float (from_be 0 b), rest)
decode_value inner boolean [] = err symbol_error
decode_value inner boolean (b ∷ rest) =
    if ltb 1 b then err symbol_error else ok (bool (b == 1), rest)
decode_value inner string src = do (b, rest) ← decode_sized src; s ← utf8_decode b; ok (str s, rest)
decode_value inner byte_string src = do (b, rest) ← decode_sized src; ok (bytes b, rest)
decode_value inner uuid src = do (b, rest) ← read_bytes symbol_error 16 src; ok (bytes b, rest)
decode_value inner handle src = do
  (b, rest) ← read_bytes symbol_error 8 src
  ok (int (unpack_int false 8 b), rest)
decode_value inner ref src = do
  (b, rest) ← read_bytes symbol_error 2 src
  ok (int (unpack_int false 2 b), rest)
decode_value inner buf_ref src = do
  (b, rest) ← read_bytes symbol_error 16 src
  let id = unpack_int false 8 (take 8 b)
  let offset = unpack_int false 4 (take 4 (drop 8 b))
  let size = unpack_int false 4 (drop 12 b)
  ok (triple id offset size, rest)
decode_value inner list src = do
  (count, p) ← decode_varint src
  (ss, rest) ← decode_items inner count p
  ok (items ss, rest)
decode_value inner mapping src = do
  (count, p) ← decode_varint src
  (es, rest) ← decode_entries inner count end p
  ok (dict es, rest)
decode_value inner null src = ok (nothing, src)
decode_value inner vendor src = do (b, rest) ← decode_sized src; ok (bytes b, rest)
decode_value inner unknown src = err symbol_error

-- `decode_symbol` with `fuel` nested calls left.
unfoldable pub decode_within : ℕ → Decoder Symbol
decode_within fuel [] = err symbol_error
decode_within zero (tag ∷ src) = err out_of_fuel
decode_within (suc fuel) (tag ∷ src) = do
  (v, rest) ← decode_value (decode_within fuel) (kind_of tag) src
  ok (symbol tag v, rest)

-- Each nested call stands behind a tag byte, so `length src` of them are enough.
unfoldable pub decode_symbol : Decoder Symbol
decode_symbol src = decode_within (length src) src
